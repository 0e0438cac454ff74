-- ===== src/Protocol/Scpi.antt =====
-- protocol/src/scpi.rs: the requests for an SCPI instrument. A text is the list of its bytes.
use comsrv.Base.{ℕ, List}

pub data ScpiRequest : Type 0 where
  write : List ℕ → ScpiRequest
  query_string : List ℕ → ScpiRequest
  query_binary : List ℕ → ScpiRequest
  read_raw : ScpiRequest

pub data ScpiResponse : Type 0 where
  done : ScpiResponse
  string : List ℕ → ScpiResponse
  binary : List ℕ → ScpiResponse
