-- ===== src/Client/ByteStream.antt =====
-- client/src/bytestream.rs: the requests of a client on a byte stream instrument.
use comsrv.Base.{ℕ, List}
use comsrv.ByteStream.{ByteStreamRequest, ByteStreamResponse, string, done}
use comsrv.ByteStream
use comsrv.Client.{
  unexpected_response, remote, Reply, ok, err, Request, Response, Call, ◌>>=◌, lift, Locked,
  new_locked, check_lock,
}

pub record ByteStreamPipe (A : Type 0) : Type 0 where
  pub instrument : A
  pub lock : Locked

unfoldable pub new : {A : Type 0} → A → ByteStreamPipe A
unfolding new_locked
new instrument = record { instrument = instrument; lock = new_locked }

unfoldable pub bytes_of : Response → Reply ByteStreamResponse
bytes_of (Response.bytes x) = ok x
bytes_of (Response.error e) = err (remote e)
bytes_of (Response.can source x) = err unexpected_response
bytes_of (Response.locked lock_id) = err unexpected_response
bytes_of Response.done = err unexpected_response

unfoldable pub done_of : ByteStreamResponse → Reply (Unit {0})
done_of done = ok tt
done_of (ByteStream.bytes x) = err unexpected_response
done_of (string x) = err unexpected_response
done_of (ByteStreamResponse.mod_bus x) = err unexpected_response

unfoldable pub payload_of : ByteStreamResponse → Reply (List ℕ)
payload_of (ByteStream.bytes x) = ok x
payload_of done = err unexpected_response
payload_of (string x) = err unexpected_response
payload_of (ByteStreamResponse.mod_bus x) = err unexpected_response

unfoldable pub text_of : ByteStreamResponse → Reply (List ℕ)
text_of (string x) = ok x
text_of done = err unexpected_response
text_of (ByteStream.bytes x) = err unexpected_response
text_of (ByteStreamResponse.mod_bus x) = err unexpected_response

module _ {A S : Type 0} (rpc : Request A → Call S Response) (pipe : ByteStreamPipe A) where
  unfoldable pub request : ByteStreamRequest → Call S ByteStreamResponse
  unfolding bytes_of check_lock
  request req = rpc (Request.bytes pipe.instrument req (check_lock pipe.lock).0) >>= λ ret.
      lift (bytes_of ret)

  unfoldable pub write : List ℕ → Call S (Unit {0})
  unfolding request done_of
  write payload = request (ByteStreamRequest.write payload) >>= λ ret. lift (done_of ret)

  unfoldable pub read_all : Call S (List ℕ)
  unfolding request payload_of
  read_all = request ByteStreamRequest.read_all >>= λ ret. lift (payload_of ret)

  unfoldable pub read_to_term : ℕ → Call S (List ℕ)
  unfolding request payload_of
  read_to_term term = request (ByteStreamRequest.read_to_term term) >>= λ ret. lift (payload_of ret)

  unfoldable pub read_exact : ℕ → Call S (List ℕ)
  unfolding request payload_of
  read_exact count = request (ByteStreamRequest.read_exact count) >>= λ ret. lift (payload_of ret)

  unfoldable pub cobs_write : List ℕ → Call S (Unit {0})
  unfolding request done_of
  cobs_write payload = request (ByteStreamRequest.cobs_write payload) >>= λ ret. lift (done_of ret)

  unfoldable pub cobs_read : Call S (List ℕ)
  unfolding request payload_of
  cobs_read = request ByteStreamRequest.cobs_read >>= λ ret. lift (payload_of ret)

  unfoldable pub cobs_query : List ℕ → Call S (List ℕ)
  unfolding request payload_of
  cobs_query payload =
      request (ByteStreamRequest.cobs_query payload) >>= λ ret. lift (payload_of ret)

  unfoldable pub write_line : List ℕ → ℕ → Call S (Unit {0})
  unfolding request done_of
  write_line line term =
      request (ByteStreamRequest.write_line line term) >>= λ ret. lift (done_of ret)

  unfoldable pub read_line : ℕ → Call S (List ℕ)
  unfolding request text_of
  read_line term = request (ByteStreamRequest.read_line term) >>= λ ret. lift (text_of ret)

  unfoldable pub query_line : List ℕ → ℕ → Call S (List ℕ)
  unfolding request text_of
  query_line line term =
      request (ByteStreamRequest.query_line line term) >>= λ ret. lift (text_of ret)
