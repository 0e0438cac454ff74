-- ===== src/Transport/Can/Loopback.antt =====
-- The handler of a CAN device together with its listener, and a new bit rate.
use Prim.Native.String.{String}
use comsrv.Base.{
  ℕ, true, false, Bool, List, [], ◌∷◌, ◌++◌, Option, none, some, ◌≡◌, ◌≢◌, refl, arith, ◌!=◌,
}
use comsrv.Protocol.Error.{ok}
use comsrv.Protocol.Can.{
  CanInstrument, pcan, CanMessage, GctMessage, tx_gct, listen_gct, started, done, returns, gct,
}
use comsrv.Gct.Encode.{encode}
use comsrv.Transport.Can.Listener.{loop_back, close, enable_gct, Listener, listen, control, can}
use comsrv.Transport.Can.Listener.Laws.{CanSend, raw_of, listen-encode}
use comsrv.Transport.Can.{
  CanError, on_loopback, on_bus, Mailbox, Handler, post, check_open, check_listener, close_open,
  close_listener, other_bitrate, update_bitrate, make_sender, connect_bus, opened, both_open,
  forget, restart, send, transmit, transmit_next, transmit_all, transmit_encoded, sent_with, posted,
  request_on, request_with, handle_request, try_again, retry_loop, handle_open, handle,
}
use comsrv.Transport.Can.Laws.{IsReady, handle-result_of}

module _ (accepted : CanMessage → Bool) (fault : List CanMessage → Option CanError) where
  -- A valid message that fits one frame is requested of a handler that serves the loopback device
  -- and has loopback enabled. The request is answered, the frame is sent to the device and to the
  -- listener, and a listener in any state that listens to GCT messages broadcasts the message as it
  -- was requested, behind its frame if raw frames are enabled too.
  pub handle-listen :
      (refused : Option CanError) (instr : CanInstrument) (msg : GctMessage)
      (sent : List CanMessage) (tx : Mailbox) (h : Handler) (l : Listener)
      → IsReady accepted fault instr (on_loopback sent) tx h
      → h.loopback ≡ true
      → CanSend msg
      → l.listen_gct ≡ true
      → (frame : CanMessage) × (encode msg ≡ ok (frame ∷ []))
        × (handle accepted fault refused (record { inner = tx_gct msg; instrument = instr }) h
            ≡ returns (
              ok done,
              record h {
                last_instrument = some instr;
                sender = some (on_loopback (sent ++ (frame ∷ [])));
                listener = some (record tx { messages = tx.messages ++ (loop_back frame ∷ []) });
              },
            ))
        × (listen (control (loop_back frame) ∷ []) l
            ≡ returns (true, l, raw_of l.listen_raw (frame ∷ []) ++ (can (gct msg) ∷ [])))
  unfolding request_on transmit_encoded transmit_all transmit transmit_next send post sent_with
  handle-listen refused instr msg sent tx h l ready on sends g =
      let (frames, (frame, rest, e, encoded, none_left), seen) =
        listen-encode (msg ∷ []) l (sends, tt) g in
      (
        frame,
        encoded,
        rw
            (
              handle-result_of accepted fault refused
                  (record { inner = tx_gct msg; instrument = instr }) (on_loopback sent) tx h ready,
              encoded,
              ready.runs,
              on,
            )
            refl,
        rw (e, none_left) at seen,
      )

  -- A request to listen to a PCAN device with another bit rate than the last one sends `Close` to
  -- the listener that runs, and is served by a new sender and a new listener, if they connect.
  pub handle-other_bitrate :
      (address old_address : String) (bitrate old_bitrate : ℕ) (en : Bool) (tx : Mailbox)
      (h : Handler)
      → h.listener ≡ some tx
      → tx.closed ≡ false
      → h.last_instrument ≡ some (pcan old_address old_bitrate)
      → old_bitrate ≢ bitrate
      → handle accepted fault none
          (record { inner = listen_gct en; instrument = pcan address bitrate })
          h
        ≡ returns (
          ok started,
          record h {
            last_instrument = some (pcan address bitrate);
            sender = some (on_bus []);
            listener = some (record { closed = false; messages = enable_gct en ∷ [] });
            former = record tx { messages = tx.messages ++ (close ∷ []) } ∷ h.former;
          },
        )
  unfolding handle handle_open restart retry_loop handle_request request_with request_on posted post
      check_listener check_open update_bitrate close_listener close_open both_open opened
      make_sender connect_bus try_again other_bitrate forget
  handle-other_bitrate address old_address bitrate old_bitrate en tx h l runs last d =
      let differs : (old_bitrate != bitrate) ≡ true = ground arith in
      rw (l, runs, check_open, last, differs) refl
