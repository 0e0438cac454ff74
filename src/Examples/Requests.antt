-- ===== src/Examples/Requests.antt =====
-- Whole requests, and connections that wait, break or are closed.
use comsrv.Base.{ℕ, ◌≡◌, refl, Bool, true, List, [], ◌∷◌, ◌++◌, none, arith}
use comsrv.Stream.{Stream, silent, closed, ok, err}
use comsrv.Protocol.Error.{transport, io, unexpected_eof}
use comsrv.Cobs.{cobs_encode}
use comsrv.ByteStream.{query_line, cobs_query, bytes, string, handle}
use comsrv.ByteStream.Requests.{answered, query_line-reply, cobs_query-reply, query_closed}

-- A connection over which `incoming` will come, after two stray bytes.
abbrev connection : List ℕ → Stream
connection incoming = record {
  pending = 99 ∷ 98 ∷ [];
  incoming = incoming;
  ending = silent;
  outgoing = [];
  write_error = none;
}

abbrev dead : Stream
dead = record (connection []) { ending = closed }

abbrev any_text : List ℕ → Bool
any_text text = true

query_line-reply_example :
    handle any_text 0 (query_line (63 ∷ []) 10) (connection (79 ∷ 75 ∷ 10 ∷ 5 ∷ [])) ≡ (
      ok (string (79 ∷ 75 ∷ [])),
      answered (connection (79 ∷ 75 ∷ 10 ∷ 5 ∷ [])) ((63 ∷ []) ++ 10 ∷ []) (5 ∷ []),
    )
query_line-reply_example =
    query_line-reply any_text 0 (63 ∷ []) (79 ∷ 75 ∷ []) (5 ∷ []) 10
      (connection (79 ∷ 75 ∷ 10 ∷ 5 ∷ [])) refl refl refl (omega arith) (omega arith)
      ((λ e. omega (arith, e)), ((λ e. omega (arith, e)), tt)) refl

cobs_query-reply_example :
    handle any_text 0 (cobs_query (4 ∷ [])) (connection (0 ∷ (cobs_encode (0 ∷ 6 ∷ []) ++ []))) ≡ (
      ok (bytes (0 ∷ 6 ∷ [])),
      answered (connection (0 ∷ (cobs_encode (0 ∷ 6 ∷ []) ++ []))) (cobs_encode (4 ∷ [])) [],
    )
cobs_query-reply_example =
    cobs_query-reply any_text 0 1 (4 ∷ []) (0 ∷ 6 ∷ []) []
      (connection (0 ∷ (cobs_encode (0 ∷ 6 ∷ []) ++ []))) refl refl refl

query_closed_example :
    (handle any_text 0 (query_line (63 ∷ []) 10) dead
      ≡ (err (transport (io unexpected_eof)), answered dead ((63 ∷ []) ++ 10 ∷ []) []))
    × (handle any_text 0 (cobs_query (4 ∷ [])) dead
        ≡ (err (transport (io unexpected_eof)), answered dead (cobs_encode (4 ∷ [])) []))
query_closed_example =
    query_closed any_text 0 (63 ∷ []) (4 ∷ []) 10 dead refl refl refl (omega arith) (omega arith)
