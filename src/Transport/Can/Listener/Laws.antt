-- ===== src/Transport/Can/Listener/Laws.antt =====
-- What a listener broadcasts for the frames that it receives.
use comsrv.Base.{
  Bool, true, false, List, [], ◌∷◌, ◌++◌, All, append_assoc, some, ◌≡◌, refl, ap, arith,
  if◌then◌else◌,
}
use comsrv.Protocol.Error.{Error, ok, err, is_transport_error}
use comsrv.Protocol.Can.{CanMessage, data_frame, GctMessage, validate, raw, gct, stopped, returns}
use comsrv.Gct.Encode.{encode}
use comsrv.Gct.Decoder.{decode}
use comsrv.Gct.Decoder.SingleFrame.{FitsOneFrame, decode-encode}
use comsrv.Transport.Can.Listener.{
  loop_back, Broadcast, can, error, Listener, Event, control, received, rx, rx_decoded,
  err_broadcast, rx_control, received_with, broadcast_first, round, then_rounds, listen,
}

abbrev pub frames_of : List CanMessage → List Event
frames_of [] = []
frames_of (msg ∷ msgs) = received (ok msg) ∷ frames_of msgs

-- The raw broadcasts, if they are enabled.
abbrev pub raw_of : Bool → List CanMessage → List Broadcast
raw_of false msgs = []
raw_of true [] = []
raw_of true (msg ∷ msgs) = can (raw msg) ∷ raw_of true msgs

-- While GCT messages are not enabled, the listener broadcasts each frame that it receives, in order
-- and as it is, if raw frames are enabled, and nothing if they are not. No frame stops it.
pub listen-raw_of :
    (msgs : List CanMessage) (l : Listener)
    → l.device ≡ true
    → l.listen_gct ≡ false
    → listen (frames_of msgs) l ≡ returns (true, l, raw_of l.listen_raw msgs)
unfolding listen round received_with rx then_rounds broadcast_first
listen-raw_of [] l d g = ground arith
listen-raw_of (msg ∷ msgs) l d g = let ih = listen-raw_of msgs l d g in ground arith

-- An error of the transport is broadcast, then that the listener has stopped, and whatever comes
-- later is not. Another error is broadcast, and the listener goes on as it was.
pub listen_error :
    (e : Error) (events : List Event) (l : Listener)
    → l.device ≡ true
    → listen (received (err e) ∷ events) l ≡ (
        if is_transport_error e
        then returns (false, l, error e ∷ can stopped ∷ [])
        else broadcast_first (error e ∷ []) (listen events l))
unfolding listen round received_with err_broadcast then_rounds
listen_error e events l d = ground arith

raw_one :
    (b : Bool) (msg : CanMessage) → (if b then can (raw msg) ∷ [] else []) ≡ raw_of b (msg ∷ [])
raw_one true msg = refl
raw_one false msg = refl

rx-decoded :
    (frame : CanMessage) (msg : GctMessage) (l : Listener)
    → l.listen_gct ≡ true
    → decode l.decoder frame ≡ returns (l.decoder, some msg)
    → rx frame l ≡ returns (true, l, raw_of l.listen_raw (frame ∷ []) ++ (can (gct msg) ∷ []))
unfolding rx rx_decoded
rx-decoded frame msg l g d = ground (arith, raw_one l.listen_raw frame)

-- What is broadcast for messages that are sent in one frame each.
abbrev pub seen_of : Bool → List GctMessage → List CanMessage → List Broadcast
seen_of b (msg ∷ msgs) (frame ∷ frames) =
    raw_of b (frame ∷ []) ++ (can (gct msg) ∷ seen_of b msgs frames)
seen_of b msgs frames = []

abbrev pub looped : List CanMessage → List Event
looped [] = []
looped (frame ∷ frames) = control (loop_back frame) ∷ looped frames

-- The frames of these messages, one for each.
abbrev pub Encodes : List GctMessage → List CanMessage → Type 0
Encodes [] frames = frames ≡ []
Encodes (msg ∷ msgs) frames =
    (frame : CanMessage) × (rest : List CanMessage) × (frames ≡ frame ∷ rest)
    × (encode msg ≡ ok (frame ∷ []))
    × Encodes msgs rest

abbrev pub CanSend : GctMessage → Type 0
CanSend msg = FitsOneFrame msg × (validate msg ≡ true)

-- Messages that fit one frame each, sent by `encode` and looped back to a listener in any state
-- that listens to GCT messages, are broadcast in order and as they were sent, each behind its frame
-- if raw frames are enabled too, and the listener stays as it is.
pub listen-encode :
    (msgs : List GctMessage) (l : Listener)
    → All CanSend msgs
    → l.listen_gct ≡ true
    → (frames : List CanMessage) × Encodes msgs frames
      × (listen (looped frames) l ≡ returns (true, l, seen_of l.listen_raw msgs frames))
unfolding listen round rx_control then_rounds broadcast_first
listen-encode [] l all g = ([], refl, refl)
listen-encode (msg ∷ msgs) l ((fits, v), all) g =
    let (f, carries) = decode-encode l.decoder msg fits v in
    let (frames, encodes, e) = listen-encode msgs l all g in
    (
      data_frame f ∷ frames,
      (data_frame f, frames, refl, carries.encoded, encodes),
      rw (rx-decoded (data_frame f) msg l g carries.decoded, e)
          (ap (λ (x : List Broadcast). returns (true, l, x))
            (append_assoc (raw_of l.listen_raw (data_frame f ∷ [])) (can (gct msg) ∷ []) _)),
    )
