-- ===== src/DoubleBuffer/View/Starts.antt =====
-- `NewDoubleBuffer` and the view that it starts with.
use mathlib.Core.List.Perm
use turbo_stream.Prelude.{ℕ, ◌<◌, ◌≡◌, refl, arith, inl, [], Option, none}
use turbo_stream.Prelude.Int.{ℤ, pos, half32}
use turbo_stream.Outside.{ok}
use turbo_stream.SmartBuffer.{SmartBuffer, new_smart_buffer}
use turbo_stream.SmartBuffer.Stored.{Holds}
use turbo_stream.SmartBuffer.Fifo.{new_smart_buffer-Holds}
use turbo_stream.WrapHeap.Contract.{empty-IsGood}
use turbo_stream.DoubleBuffer.{Env, DoubleBuffer}
use turbo_stream.DoubleBuffer.Close.{opened, new_double_buffer}
use turbo_stream.DoubleBuffer.View.{IsEnv, Parts, Shows}

abbrev pub nothing : Parts
nothing = record { current = []; heaped = []; unpublished = []; active = [] }

module _ {T : Type 0} (env : Env T) (law : IsEnv env) (c : ℕ) (now : T) where
  -- The view of a new double buffer, whatever mode is registered.
  abbrev pub opened_with : SmartBuffer → Option ℤ → DoubleBuffer T
  opened_with b mode = record (opened env b (pos c) now) { read_mode = mode }

  pub opened-Shows :
      (b : SmartBuffer) (mode : Option ℤ)
      → 0 < c
      → c < half32
      → Holds c b 0 []
      → b.state ≡ env.states.write_only
      → Shows env law c (opened_with b mode) nothing
  opened-Shows b mode positive small holds open_ = record {
    open_ = refl;
    sized = refl;
    positive = positive;
    small = small;
    active_holds = holds;
    active_mode = inl open_;
    passive_fresh = record { empty = holds; takes_writes = open_ };
    pool_fresh = tt;
    current_holds = refl;
    heap_holds = record {
      good = empty-IsGood env.heap law.heap_law;
      next = 1;
      order = [];
      same = Perm.nil;
      numbered = tt;
      current_at = refl;
      last_at = refl;
      from_one = omega arith;
      small = omega arith;
    };
    unpublished_hold = tt;
  }

  pub new_double_buffer-opened :
      (b : SmartBuffer)
      → new_smart_buffer env.states (pos c) ≡ ok b
      → new_double_buffer env (pos c) now ≡ ok (opened env b (pos c) now)
  unfolding new_double_buffer
  new_double_buffer-opened b made = rw (made, new_double_buffer) refl

-- A double buffer of a capacity from 1 to 2^31 - 1 is made without a panic, is open, and holds no
-- unread item.
pub new_double_buffer-Shows :
    {T : Type 0} (env : Env T) (law : IsEnv env) (c : ℕ) (now : T)
    → 0 < c
    → c < half32
    → (d : DoubleBuffer T) × (new_double_buffer env (pos c) now ≡ ok d) × Shows env law c d nothing
new_double_buffer-Shows env law c now positive small =
    let (b, made, holds, mode) = new_smart_buffer-Holds env.states c small in
    (
      opened env b (pos c) now,
      new_double_buffer-opened env law c now b made,
      opened-Shows env law c now b none positive small holds mode,
    )
