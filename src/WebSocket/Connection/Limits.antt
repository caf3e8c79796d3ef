-- ===== src/WebSocket/Connection/Limits.antt =====
-- `readMessage` ends, with a message within the limits or with a closed connection, unless one of
-- its writes never returns.
use geruest.Prelude.{
  ℕ, zero, suc, ◌+◌, ◌<◌, ◌≤◌, ◌≡◌, refl, ◌∙◌, ◌⊎◌, inr, Bool, true, false, [], ◌++◌, Option, none,
  some, Text, codes, get_or, drop, ◌*◌, length, length-append, ltb, max, if_elim, arith,
}
use geruest.Routes.{WebSocketLimits}
use geruest.WebSocket.{op_text, op_binary, op_close, op_pong, WsMessage, make_close}
use geruest.WebSocket.Connection.{
  Connection, Socket, protocol_error, Rounds, after_round, refuse, after_frame, FrameRead,
  end_of_stream, not_masked, frame_too_large, frame, read_frame, Assembly, Round, wait, return,
  continue, return_behind, continue_behind, handle_frame, fail_with, answer_close, answer_ping,
  finish, ReadResult, message, exception, waits_for_ever, out_of_fuel, read_loop, read_message,
}
use geruest.WebSocket.Connection.Writes.{
  Blocks, Behind, IsShut, protocol_error-IsShut, write_frame-Behind,
}
use geruest.WebSocket.Connection.Progress.{Fits, read_frame-Fits}

module _ (limits : WebSocketLimits) (socket : Socket) where
  -- A data message within the larger of the two limits, or a close message after which the
  -- connection is closed.
  abbrev pub IsOutcome : WsMessage → Connection → Type 0
  IsOutcome m ws =
      (((m.opcode ≡ op_text) ⊎ (m.opcode ≡ op_binary))
        × (length m.payload ≤ max limits.max_frame_bytes limits.max_message_bytes))
      ⊎ ((m.opcode ≡ op_close) × (ws.open_ ≡ false) × (ws.writes_enabled ≡ false))

  abbrev pub Ends : ReadResult → Type 0
  Ends (message m ws rest) = IsOutcome m ws
  Ends (exception ws) = Unit
  Ends waits_for_ever = Blocks socket
  Ends out_of_fuel = ⊥

  abbrev IsBounded : Assembly → Type 0
  IsBounded state = length state.accumulator ≤ max limits.max_frame_bytes limits.max_message_bytes

  Keeps : Round → Type 0
  Keeps wait = Blocks socket
  Keeps (return m ws) = IsOutcome m ws
  Keeps (continue state ws) = IsBounded state × (ws.open_ ≡ true)

  finish-Keeps :
      (fin : Bool) (state : Assembly) (ws : Connection)
      → IsBounded state
      → ws.open_ ≡ true
      → Keeps (finish fin state ws)
  unfolding finish Keeps
  finish-Keeps fin state ws h o = ground arith

  return_behind-Keeps :
      (code : ℕ) (reason : Text) (shut : Option Connection)
      → Behind socket (IsShut socket) shut
      → Keeps (return_behind (make_close code reason) shut)
  unfolding return_behind Keeps
  return_behind-Keeps code reason none h = h
  return_behind-Keeps code reason (some ws) (shut, mute) = inr (refl, shut, mute)

  fail_with-Keeps :
      (code : ℕ) (reason : Text) (ws : Connection) → Keeps (fail_with socket code reason ws)
  unfolding fail_with
  fail_with-Keeps code reason ws =
      return_behind-Keeps code reason _ (protocol_error-IsShut socket code reason ws)

  answer_close-Keeps :
      (code : ℕ) (reason : Text) (ws : Connection) → Keeps (answer_close socket code reason ws)
  unfolding answer_close protocol_error
  answer_close-Keeps code reason ws =
      return_behind-Keeps code reason _ (protocol_error-IsShut socket code reason ws)

  -- What the test before the append makes sure of.
  appended :
      (state : Assembly) (payload : Text)
      → ltb limits.max_message_bytes (length state.accumulator + length payload) ≡ false
      → IsBounded (record state { accumulator = state.accumulator ++ payload })
  appended state payload h = ground (arith, length-append state.accumulator payload)

  continue-Keeps :
      (state : Assembly) (ws : Connection)
      → IsBounded state
      → ws.open_ ≡ true
      → Keeps (continue state ws)
  unfolding Keeps
  continue-Keeps state ws k o = (k, o)

  continue_behind-Keeps :
      (state : Assembly) (ws : Connection) (after : Option Connection)
      → IsBounded state
      → ws.open_ ≡ true
      → Behind socket (λ ws'. ws'.open_ ≡ ws.open_) after
      → Keeps (continue_behind state after)
  unfolding continue_behind Keeps
  continue_behind-Keeps state ws none k o h = h
  continue_behind-Keeps state ws (some ws') k o h = (k, h ∙ o)

  answer_ping-Keeps :
      (payload : Text) (state : Assembly) (ws : Connection)
      → IsBounded state
      → ws.open_ ≡ true
      → Keeps (answer_ping socket payload state ws)
  unfolding answer_ping
  answer_ping-Keeps payload state ws k o =
      continue_behind-Keeps state ws _ k o (write_frame-Behind socket op_pong payload ws)

  handle_frame-Keeps :
      (fin : Bool) (op : ℕ) (payload : Text) (state : Assembly) (ws : Connection)
      → length payload ≤ limits.max_frame_bytes
      → IsBounded state
      → ws.open_ ≡ true
      → Keeps (handle_frame socket limits fin op payload state ws)
  unfolding handle_frame
  handle_frame-Keeps fin op payload state ws h k o =
      let longer = record state { accumulator = state.accumulator ++ payload } in
      ground (
        arith,
        fail_with-Keeps 1002 (codes "fragmented control") ws,
        fail_with-Keeps 1002 (codes "control frame too large") ws,
        fail_with-Keeps 1009 (codes "message too large") ws,
        fail_with-Keeps 1002 (codes "unexpected continuation") ws,
        answer_close-Keeps 1005 [] ws,
        answer_close-Keeps (get_or payload 0 0 * 256 + get_or payload 1 0) (drop 2 payload) ws,
        continue-Keeps state ws k o,
        answer_ping-Keeps payload state ws k o,
        finish-Keeps fin (record { message_opcode = op; accumulator = payload; started = true }) ws
            (omega arith) o,
        λ (small : ltb limits.max_message_bytes (length state.accumulator + length payload)
              ≡ false).
            finish-Keeps fin longer ws (appended state payload small) o,
      )

  abbrev EndsFrom : ℕ → Rounds → Type 0
  EndsFrom n next =
      (rest : Text) (state : Assembly) (ws : Connection)
      → length rest < n
      → IsBounded state
      → ws.open_ ≡ true
      → Ends (next rest state ws)

  after_round-Ends :
      (n : ℕ) (next : Rounds) (rest : Text) (r : Round)
      → EndsFrom n next
      → length rest < n
      → Keeps r
      → Ends (after_round next rest r)
  unfolding after_round Keeps
  after_round-Ends n next rest wait ih h k = k
  after_round-Ends n next rest (return m ws) ih h k = k
  after_round-Ends n next rest (continue state ws) ih h (k, o) = ih rest state ws h k o

  refused_rest :
      (shut : Option Connection) (rest : Text)
      → Behind socket (IsShut socket) shut
      → Ends (elim shut [
        | none ↦ waits_for_ever
        | some ws' ↦ message (make_close ws'.close_code ws'.close_reason) ws' rest
      ])
  refused_rest none rest h = h
  refused_rest (some ws) rest (shut, mute) = inr (refl, shut, mute)

  refuse-Ends :
      (code : ℕ) (reason : Text) (ws : Connection) (rest : Text)
      → Ends (refuse socket code reason ws rest)
  unfolding refuse
  refuse-Ends code reason ws rest =
      refused_rest (protocol_error socket code reason ws) rest
        (protocol_error-IsShut socket code reason ws)

  after_frame-Ends :
      (n : ℕ) (next : Rounds) (input : Text) (state : Assembly) (ws : Connection) (f : FrameRead)
      → EndsFrom n next
      → Fits limits (length input) f
      → length input ≤ n
      → IsBounded state
      → ws.open_ ≡ true
      → Ends (after_frame socket limits next input state ws f)
  unfolding after_frame
  after_frame-Ends n next input state ws end_of_stream ih fits h k o = tt
  after_frame-Ends n next input state ws not_masked ih fits h k o = refuse-Ends _ _ ws _
  after_frame-Ends n next input state ws (frame_too_large rest) ih fits h k o = refuse-Ends _ _ ws _
  after_frame-Ends n next input state ws (frame fin op payload rest) ih (shorter, fits) h k o =
      after_round-Ends n next rest (handle_frame socket limits fin op payload state ws) ih
        (omega arith) (handle_frame-Keeps fin op payload state ws fits k o)

  read_loop-Ends :
      (fuel : ℕ) (input : Text) (state : Assembly) (ws : Connection)
      → length input < fuel
      → IsBounded state
      → (ws.open_ ≡ false → ws.writes_enabled ≡ false)
      → Ends (read_loop socket limits fuel input state ws)
  unfolding read_loop
  read_loop-Ends zero input state ws h k o = elim h [ ]
  read_loop-Ends (suc fuel) input state ws h k o =
      if_elim Ends ws.open_ _ _
        (λ open_now.
          after_frame-Ends fuel (read_loop socket limits fuel) input state ws
            (read_frame limits input)
            (λ rest state' ws' h' k' o'. read_loop-Ends fuel rest state' ws' h' k' (λ e. cc))
            (read_frame-Fits limits input) (omega arith) k open_now)
        (λ shut. inr (refl, shut, o shut))

  -- From a stream of bytes that ends, reading a message ends, with an exception of the socket, with
  -- a data message within the larger of the two limits, or with a close message, and then the
  -- connection is closed for writing too; it only waits for ever where one of the writes to the
  -- socket never returns.
  pub read_message-Ends :
      (input : Text) (ws : Connection)
      → (ws.open_ ≡ false → ws.writes_enabled ≡ false)
      → Ends (read_message socket limits input ws)
  unfolding read_message
  read_message-Ends input ws o =
      read_loop-Ends (length input + 1) input _ ws (omega arith) (omega arith) o
