-- ===== src/WebSocket/Connection.antt =====
-- src/server/WebSocket.cpp: the connection, its writes, and `readMessage`. The socket is what it
-- still delivers and what comes of each write; an exception of the socket is a result, and so is a
-- wait that never ends: none, where a write is awaited whose gate never opens.
pub mod Progress
pub mod Writes
pub mod Limits
use geruest.Prelude.{
  ℕ, zero, suc, ◌+◌, ◌*◌, ◌%◌, ◌^◌, Bool, true, false, ◌&&◌, ◌||◌, not, List, [], ◌∷◌, ◌++◌, Option,
  none, some, Text, codes, length, take, drop, get_or, ltb, leb, ◌==◌, if◌then◌else◌,
}
use geruest.Routes.{WebSocketLimits}
use geruest.WebSocket.{
  op_continuation, op_text, op_binary, op_close, op_ping, op_pong, is_control_opcode, WsMessage,
  make_message, make_close, encode_server_frame, read_uint64, unmask_payload,
}

pub record Connection : Type 0 where
  pub open_ : Bool
  pub writes_enabled : Bool
  pub close_code : ℕ
  pub close_reason : Text
  -- the frames written, and the number of writes tried
  pub sent : List Text
  pub writes : ℕ

-- What comes of an awaited write. It fails where the socket refuses its frame or one ahead of it
-- before the frame is queued. It never returns where the frame is queued and one ahead of it, of
-- `sendNow`, fails: the pump stops then, and nothing opens the gate of `WriteChain::write`.
pub data WriteOutcome : Type 0 where
  written failed never_returns : WriteOutcome

-- What comes of the n-th write.
abbrev pub Socket : Type 0
Socket = ℕ → WriteOutcome

infixl 5 ◌>>=◌
abbrev pub ◌>>=◌ {ℓ κ} : {A : Type ℓ} {B : Type κ} → Option A → (A → Option B) → Option B
none >>= f = none
some a >>= f = f a

-- `markClosed`.
unfoldable pub mark_closed : ℕ → Text → Connection → Connection
mark_closed code reason ws = record ws {
  open_ = false;
  writes_enabled = false;
  close_code = code;
  close_reason = reason;
}

-- Behind the first test of `WriteChain::write`: a failed write disables the later ones and is not
-- reported.
unfoldable pub after_write : WriteOutcome → Text → Connection → Option Connection
after_write written frame ws =
    some (record ws { sent = ws.sent ++ frame ∷ []; writes = ws.writes + 1 })
after_write failed frame ws = some (record ws { writes_enabled = false; writes = ws.writes + 1 })
after_write never_returns frame ws = none

-- `WriteChain::write`, with the pump.
unfoldable pub write : Socket → Text → Connection → Option Connection
unfolding after_write
write socket frame ws =
    if not ws.writes_enabled then some ws else after_write (socket ws.writes) frame ws

unfoldable pub write_close_frame : Socket → ℕ → Text → Connection → Option Connection
write_close_frame socket code reason ws =
    write socket (encode_server_frame op_close (make_close code reason).payload true) ws

pub protocol_error : Socket → ℕ → Text → Connection → Option Connection
protocol_error socket code reason ws = do
  ws' ← write_close_frame socket code reason ws
  some (mark_closed code reason ws')

-- `writeFrame` behind `writeRawFrame`'s test.
pub write_frame : Socket → ℕ → Text → Connection → Option Connection
write_frame socket op payload ws =
    if not ws.open_ then some ws else write socket (encode_server_frame op payload true) ws

-- `send`, `sendBinary`, `ping` and `pong`.
pub send : Socket → Text → Connection → Option Connection
send socket text = write_frame socket op_text text

pub send_binary : Socket → Text → Connection → Option Connection
send_binary socket bytes = write_frame socket op_binary bytes

pub ping : Socket → Text → Connection → Option Connection
ping socket payload = write_frame socket op_ping payload

pub pong : Socket → Text → Connection → Option Connection
pong socket payload = write_frame socket op_pong payload

unfoldable pub close : Socket → ℕ → Text → Connection → Option Connection
close socket code reason ws =
    if not ws.open_
    then some ws
    else (do ws' ← write_close_frame socket code reason ws; some (mark_closed code reason ws'))

-- `async_read` of n bytes: the bytes and the rest, or an exception at the end of the stream.
pub read_exactly : ℕ → Text → Option (Text × Text)
read_exactly n input = if ltb (length input) n then none else some (take n input, drop n input)

-- The length of the payload, read in one to three parts; `short` is that of the header.
read_length : ℕ → Text → Option (ℕ × Text)
unfolding read_exactly read_uint64
read_length short input =
    if short == 126
    then (do (ext, rest) ← read_exactly 2 input; some (get_or ext 0 0 * 256 + get_or ext 1 0, rest))
    else if short == 127
    then (do (ext, rest) ← read_exactly 8 input; some (read_uint64 0 ext, rest))
    else some (short, input)

-- A frame off the socket, up to its payload.
pub data FrameRead : Type 0 where
  end_of_stream not_masked : FrameRead
  frame_too_large : Text → FrameRead
  frame : Bool → ℕ → Text → Text → FrameRead

read_payload : WebSocketLimits → Bool → ℕ → Option (ℕ × Text) → FrameRead
unfolding read_exactly
read_payload limits fin op none = end_of_stream
read_payload limits fin op (some (payload_len, input)) =
    if ltb limits.max_frame_bytes payload_len
    then frame_too_large input
    else elim (read_exactly 4 input) [
      | none ↦ end_of_stream
      | some (key, behind) ↦ elim (read_exactly payload_len behind) [
        | none ↦ end_of_stream
        | some (payload, rest) ↦ frame fin op (unmask_payload key payload) rest
      ]
    ]

pub read_frame : WebSocketLimits → Text → FrameRead
read_frame limits input = elim (read_exactly 2 input) [
  | none ↦ end_of_stream
  | some (header, rest) ↦
      if not (leb 128 (get_or header 1 0 % 256))
      then not_masked
      else read_payload limits (leb 128 (get_or header 0 0 % 256)) (get_or header 0 0 % 16)
          (read_length (get_or header 1 0 % 128) rest)
]

-- The variables of `readMessage`.
pub record Assembly : Type 0 where
  pub message_opcode : ℕ
  pub accumulator : Text
  pub started : Bool

-- The end of a round: a message, the next round, or a wait that never ends.
pub data Round : Type 0 where
  wait : Round
  return : WsMessage → Connection → Round
  continue : Assembly → Connection → Round

pub return_behind : WsMessage → Option Connection → Round
return_behind m none = wait
return_behind m (some ws) = return m ws

pub continue_behind : Assembly → Option Connection → Round
continue_behind state none = wait
continue_behind state (some ws) = continue state ws

-- `protocolError(…)` and the message that follows it.
pub fail_with : Socket → ℕ → Text → Connection → Round
fail_with socket code reason ws =
    return_behind (make_close code reason) (protocol_error socket code reason ws)

-- A close frame is answered with its own code and reason.
pub answer_close : Socket → ℕ → Text → Connection → Round
answer_close socket code reason ws =
    return_behind (make_close code reason)
      (do ws' ← write_close_frame socket code reason ws; some (mark_closed code reason ws'))

-- `if (fin && started)`.
pub finish : Bool → Assembly → Connection → Round
finish fin state ws =
    if fin && state.started
    then return
        (if state.message_opcode == op_text
          then make_message op_text state.accumulator
          else make_message op_binary state.accumulator)
        ws
    else continue state ws

-- A ping is answered by a pong with its payload, and the message goes on.
pub answer_ping : Socket → Text → Assembly → Connection → Round
answer_ping socket payload state ws = continue_behind state (write_frame socket op_pong payload ws)

-- A round behind the reading of a frame.
pub handle_frame : Socket → WebSocketLimits → Bool → ℕ → Text → Assembly → Connection → Round
handle_frame socket limits fin op payload state ws =
    if is_control_opcode op && not fin
    then fail_with socket 1002 (codes "fragmented control") ws
    else if is_control_opcode op && ltb 125 (length payload)
    then fail_with socket 1002 (codes "control frame too large") ws
    else if op == op_ping
    then answer_ping socket payload state ws
    else if op == op_pong
    then continue state ws
    else if op == op_close
    then (if ltb (length payload) 2
        then answer_close socket 1005 [] ws
        else answer_close socket (get_or payload 0 0 * 256 + get_or payload 1 0) (drop 2 payload)
            ws)
    else if not (op == op_continuation)
    then finish fin (record { message_opcode = op; accumulator = payload; started = true }) ws
    else if state.started
    then (if ltb limits.max_message_bytes (length state.accumulator + length payload)
        then fail_with socket 1009 (codes "message too large") ws
        else finish fin (record state { accumulator = state.accumulator ++ payload }) ws)
    else fail_with socket 1002 (codes "unexpected continuation") ws

-- What `readMessage` ends with: a message and the bytes behind its last frame, or an exception; or
-- `waits_for_ever`, where it does not end. `out_of_fuel` belongs to the model only.
pub data ReadResult : Type 0 where
  message : WsMessage → Connection → Text → ReadResult
  exception : Connection → ReadResult
  waits_for_ever out_of_fuel : ReadResult

-- The rounds that follow.
abbrev pub Rounds : Type 0
Rounds = Text → Assembly → Connection → ReadResult

pub after_round : Rounds → Text → Round → ReadResult
after_round next rest wait = waits_for_ever
after_round next rest (return m ws) = message m ws rest
after_round next rest (continue state ws) = next rest state ws

-- `protocolError(…)` where no frame was read.
pub refuse : Socket → ℕ → Text → Connection → Text → ReadResult
refuse socket code reason ws rest = elim (protocol_error socket code reason ws) [
  | none ↦ waits_for_ever
  | some ws' ↦ message (make_close ws'.close_code ws'.close_reason) ws' rest
]

pub after_frame :
    Socket → WebSocketLimits → Rounds → Text → Assembly → Connection → FrameRead → ReadResult
after_frame socket limits next input state ws end_of_stream = exception ws
after_frame socket limits next input state ws not_masked =
    refuse socket 1002 (codes "unmasked client frame") ws (drop 2 input)
after_frame socket limits next input state ws (frame_too_large rest) =
    refuse socket 1009 (codes "frame too large") ws rest
after_frame socket limits next input state ws (frame fin op payload rest) =
    after_round next rest (handle_frame socket limits fin op payload state ws)

pub read_loop : Socket → WebSocketLimits → ℕ → Rounds
read_loop socket limits zero input state ws = out_of_fuel
read_loop socket limits (suc fuel) input state ws =
    if ws.open_
    then after_frame socket limits (read_loop socket limits fuel) input state ws
        (read_frame limits input)
    else message (make_close ws.close_code ws.close_reason) ws input

-- `readMessage`, with one round for each byte that is left and one more.
pub read_message : Socket → WebSocketLimits → Text → Connection → ReadResult
read_message socket limits input ws =
    read_loop socket limits (length input + 1) input
      (record { message_opcode = op_continuation; accumulator = []; started = false }) ws
