-- ===== src/Sigenergy/Connection.antt =====
-- The connection over a sequence of reads.
use energy_optimiser.Prelude.{
  not, ◌||◌, true, length, false, ltb, ◌&&◌, ℕ, ◌≡◌, Bool, Option, List, [], ◌∷◌, arith,
}
use energy_optimiser.Sigenergy.{
  u64, u32, s16, s32, u16, ReadReply, registers, read_refused, read_raised, Reader, Quantity,
  Decoded, read, read_input_u16, read_input_s32, read_holding_u16, read_input_s16, read_input_u32,
  read_input_u64, read_input_u16_scaled, read_input_u16_best_effort, read_holding_u16_best_effort,
}

-- A call of one of the helpers, with the answer that it gets.
pub data Read : Type 0 where
  input_u16 input_s32 holding_u16 : ReadReply → Read
  input_u16_best_effort holding_u16_best_effort : ReadReply → Read
  input_s16 input_u32 input_u64 input_u16_scaled : ℕ → ReadReply → Read

unfoldable pub perform : Read → Reader → Option Quantity × Reader
perform (input_u16 reply) = read_input_u16 reply
perform (input_s32 reply) = read_input_s32 reply
perform (holding_u16 reply) = read_holding_u16 reply
perform (input_u16_best_effort reply) = read_input_u16_best_effort reply
perform (holding_u16_best_effort reply) = read_holding_u16_best_effort reply
perform (input_s16 gain reply) = read_input_s16 gain reply
perform (input_u32 gain reply) = read_input_u32 gain reply
perform (input_u64 gain reply) = read_input_u64 gain reply
perform (input_u16_scaled gain reply) = read_input_u16_scaled gain reply

unfoldable pub perform_all : List Read → Reader → Reader
perform_all [] r = r
perform_all (c ∷ calls) r = perform_all calls (perform c r).1

-- The answer is an exception, or has fewer than n words, which raises one.
abbrev pub lacks : ℕ → ReadReply → Bool
lacks n (registers words) = ltb (length words) n
lacks n read_refused = false
lacks n read_raised = true

-- A read of the critical path that raises.
abbrev pub loses : Read → Bool
loses (input_u16 reply) = lacks 1 reply
loses (input_s32 reply) = lacks 2 reply
loses (holding_u16 reply) = lacks 1 reply
loses _ = false

abbrev pub some_loses : List Read → Bool
some_loses [] = false
some_loses (c ∷ calls) = loses c || some_loses calls

best_effort_connected :
    (decode : List ℕ → Decoded) (gain : ℕ) (reply : ReadReply) (r : Reader)
    → (read false decode gain reply r).1.connected ≡ r.connected
unfolding read
best_effort_connected decode gain (registers words) r = ground arith
best_effort_connected decode gain read_refused r = ground arith
best_effort_connected decode gain read_raised r = ground arith

u16_connected :
    (reply : ReadReply) (r : Reader)
    → (read true u16 1 reply r).1.connected ≡ (r.connected && not (lacks 1 reply))
unfolding read u16
u16_connected (registers []) r = ground arith
u16_connected (registers (_ ∷ _)) r = ground arith
u16_connected read_refused r = ground arith
u16_connected read_raised r = ground arith

s32_connected :
    (reply : ReadReply) (r : Reader)
    → (read true s32 1000 reply r).1.connected ≡ (r.connected && not (lacks 2 reply))
unfolding read s32
s32_connected (registers []) r = ground arith
s32_connected (registers (_ ∷ [])) r = ground arith
s32_connected (registers (_ ∷ _ ∷ _)) r = ground arith
s32_connected read_refused r = ground arith
s32_connected read_raised r = ground arith

perform_connected :
    (c : Read) (r : Reader) → (perform c r).1.connected ≡ (r.connected && not (loses c))
unfolding perform read_input_u16 read_input_s32 read_holding_u16 read_input_s16 read_input_u32
    read_input_u64 read_input_u16_scaled read_input_u16_best_effort read_holding_u16_best_effort
perform_connected (input_u16 reply) r = u16_connected reply r
perform_connected (input_s32 reply) r = s32_connected reply r
perform_connected (holding_u16 reply) r = u16_connected reply r
perform_connected (input_u16_best_effort reply) r =
    ground (arith, best_effort_connected u16 1 reply r)
perform_connected (holding_u16_best_effort reply) r =
    ground (arith, best_effort_connected u16 1 reply r)
perform_connected (input_s16 gain reply) r = ground (arith, best_effort_connected s16 gain reply r)
perform_connected (input_u32 gain reply) r = ground (arith, best_effort_connected u32 gain reply r)
perform_connected (input_u64 gain reply) r = ground (arith, best_effort_connected u64 gain reply r)
perform_connected (input_u16_scaled gain reply) r =
    ground (arith, best_effort_connected u16 gain reply r)

-- After any sequence of reads the controller is connected exactly if it was, and no read of the
-- critical path raised: neither an error response nor a failure of a best-effort read counts.
pub perform_all_connected :
    (calls : List Read) (r : Reader)
    → (perform_all calls r).connected ≡ (r.connected && not (some_loses calls))
unfolding perform_all
perform_all_connected [] r = ground arith
perform_all_connected (c ∷ calls) r =
    ground (arith, perform_all_connected calls (perform c r).1, perform_connected c r)
