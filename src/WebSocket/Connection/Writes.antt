-- ===== src/WebSocket/Connection/Writes.antt =====
-- src/server/WebSocket.cpp: what holds behind a write that a connection awaits, if it returns.
use geruest.Prelude.{ℕ, ◌≡◌, refl, false, not, Option, none, some, Text, if_elim}
use geruest.WebSocket.Connection.{
  Connection, WriteOutcome, written, failed, never_returns, Socket, ◌>>=◌, mark_closed,
  protocol_error, after_write, write, write_close_frame, write_frame,
}

module _ (socket : Socket) where
  -- Some write to the socket never returns.
  abbrev pub Blocks : Type 0
  Blocks = (n : ℕ) × (socket n ≡ never_returns)

  -- What holds behind a write that returns.
  abbrev pub Behind : (Connection → Type 0) → Option Connection → Type 0
  Behind P none = Blocks
  Behind P (some ws) = P ws

  abbrev pub IsShut : Connection → Type 0
  IsShut ws = (ws.open_ ≡ false) × (ws.writes_enabled ≡ false)

  after_write-Behind :
      (outcome : WriteOutcome) (bytes : Text) (ws : Connection)
      → socket ws.writes ≡ outcome
      → Behind (λ ws'. ws'.open_ ≡ ws.open_) (after_write outcome bytes ws)
  unfolding after_write
  after_write-Behind written bytes ws e = refl
  after_write-Behind failed bytes ws e = refl
  after_write-Behind never_returns bytes ws e = (ws.writes, e)

  write-Behind :
      (bytes : Text) (ws : Connection)
      → Behind (λ ws'. ws'.open_ ≡ ws.open_) (write socket bytes ws)
  unfolding write
  write-Behind bytes ws =
      if_elim (Behind (λ ws'. ws'.open_ ≡ ws.open_)) (not ws.writes_enabled) _ _ (λ _. refl)
        (λ _. after_write-Behind (socket ws.writes) bytes ws refl)

  mark_closed-IsShut :
      (code : ℕ) (reason : Text) (P : Connection → Type 0) (written_ : Option Connection)
      → Behind P written_
      → Behind IsShut (written_ >>= λ ws'. some (mark_closed code reason ws'))
  unfolding mark_closed
  mark_closed-IsShut code reason P none h = h
  mark_closed-IsShut code reason P (some ws) h = (refl, refl)

  pub protocol_error-IsShut :
      (code : ℕ) (reason : Text) (ws : Connection)
      → Behind IsShut (protocol_error socket code reason ws)
  unfolding protocol_error write_close_frame
  protocol_error-IsShut code reason ws =
      mark_closed-IsShut code reason (λ ws'. ws'.open_ ≡ ws.open_) _ (write-Behind _ ws)

  pub write_frame-Behind :
      (op : ℕ) (payload : Text) (ws : Connection)
      → Behind (λ ws'. ws'.open_ ≡ ws.open_) (write_frame socket op payload ws)
  unfolding write_frame
  write_frame-Behind op payload ws =
      if_elim (Behind (λ ws'. ws'.open_ ≡ ws.open_)) (not ws.open_) _ _ (λ _. refl)
        (λ _. write-Behind _ ws)
