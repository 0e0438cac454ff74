-- ===== src/Examples/Texts.antt =====
-- Headers of SCPI blocks, and serial settings.
use comsrv.Base.{ℕ, ◌≡◌, refl, List, [], ◌∷◌, arith}
use comsrv.Protocol.Error.{ok}
use comsrv.Scpi.{parse_digits, parse_binary_header}
use comsrv.SerialParams.{SerialParams, seven, two, odd}
use comsrv.Scpi.Laws.{parse_binary_header-block}

-- `x#13`, three bytes, and one behind them.
abbrev block : List ℕ
block = b'x' ∷ b'#' ∷ b'1' ∷ b'3' ∷ 7 ∷ 8 ∷ 9 ∷ 10 ∷ []

parse_binary_header-block_example : parse_binary_header block ≡ ok (4, 3)
unfolding parse_digits
parse_binary_header-block_example =
    parse_binary_header-block (b'x' ∷ []) (b'3' ∷ []) (7 ∷ 8 ∷ 9 ∷ []) (10 ∷ [])
      ((λ e. omega (arith, e)), tt) (omega arith) (omega arith) (omega arith) (refl, tt) refl
      (omega arith)

-- 7O2 at 9600 baud.
abbrev settings : SerialParams ℕ
settings = record {
  baud = 9600;
  data_bits = seven;
  stop_bits = two;
  parity = odd;
  hardware_flow_control = 0;
}
