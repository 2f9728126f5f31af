-- ===== src/DoubleBuffer/View/Same.antt =====
-- What shows in the view, and that storing and reading bytes does not change it.
use turbo_stream.Prelude.{
  ℕ, ◌*◌, ◌<◌, ◌≤◌, insert, lookup-insert, dec_lt, ◌≡◌, refl, sym, ◌∙◌, ap, subst, arith, Option,
  List, ◌∷◌,
}
use turbo_stream.Prelude.Int.{pos, ltb_ℤ}
use turbo_stream.Outside.{ok}
use turbo_stream.SmartBuffer.{BufferItem, SmartBuffer}
use turbo_stream.SmartBuffer.Stored.{Holds}
use turbo_stream.LifeCycle.{put_big, put_medium}
use turbo_stream.DoubleBuffer.{Env, DoubleBuffer, get_small}
use turbo_stream.DoubleBuffer.Write.{place, bytes_at}
use turbo_stream.DoubleBuffer.Memory.{
  memory, IsFree, IsKept, Evolves, Evolves-refl, Evolves-trans, insert-Evolves, forget-Evolves,
  forgotten-IsKept,
}
use turbo_stream.DoubleBuffer.View.Arrays.{get_small-Takes}
use turbo_stream.DoubleBuffer.View.{IsEnv, IsFresh, AllFresh, HoldAll, Parts, CurrentHolds, Shows}
use turbo_stream.DoubleBuffer.View.Switches.{keep_heap}

-- The fields that show agree.
pub record IsSame {T : Type 0} (d e : DoubleBuffer T) : Type 0 where
  pub state : e.state ≡ d.state
  pub size : e.size ≡ d.size
  pub active : e.active ≡ d.active
  pub passive : e.passive ≡ d.passive
  pub current_buffer : e.current_buffer ≡ d.current_buffer
  pub pool : e.pool ≡ d.pool
  pub pending_heap : e.pending_heap ≡ d.pending_heap
  pub sequence : e.sequence ≡ d.sequence
  pub current_sequence : e.current_sequence ≡ d.current_sequence
  pub publishing : e.publishing ≡ d.publishing
  pub read_mode : e.read_mode ≡ d.read_mode

pub Shows-IsSame :
    {T : Type 0} (env : Env T) (law : IsEnv env) {c : ℕ} {d e : DoubleBuffer T} {p : Parts}
    → Shows env law c d p
    → IsSame d e
    → Shows env law c e p
Shows-IsSame env law {c} {d} {e} {p} v s = record {
  open_ = s.state ∙ v.open_;
  sized = s.size ∙ v.sized;
  positive = v.positive;
  small = v.small;
  active_holds = subst (λ (b : SmartBuffer). Holds c b 0 p.active) (sym s.active) v.active_holds;
  active_mode = rw s.active v.active_mode;
  passive_fresh = subst (IsFresh env.states c) (sym s.passive) v.passive_fresh;
  pool_fresh =
      subst (λ (bs : List SmartBuffer). AllFresh env.states c bs) (sym s.pool) v.pool_fresh;
  current_holds =
      subst (λ (o : Option SmartBuffer). CurrentHolds c o p.current) (sym s.current_buffer)
        v.current_holds;
  heap_holds = keep_heap env law v.heap_holds s.pending_heap s.sequence s.current_sequence;
  unpublished_hold =
      subst (λ (bs : List SmartBuffer). HoldAll c bs p.unpublished) (sym s.publishing)
        v.unpublished_hold;
}

module _ {T : Type 0} (env : Env T) (d : DoubleBuffer T) where
  pub get_small-IsSame : (n : ℕ) → IsSame d (get_small env d n).0
  unfolding get_small
  get_small-IsSame n = ground arith

  pub store-get_small : (n : ℕ) → (get_small env d n).0.store ≡ d.store
  unfolding get_small
  store-get_small n = ground arith

  small_after : ℕ → ℕ → DoubleBuffer T
  small_after ptr n =
      let (e, buf) = get_small env d n in
      record e { store = insert buf.addr (bytes_at e.store ptr) e.store }

  place-small :
      (ptr n : ℕ) (now : T)
      → 0 < n
      → n < 1024
      → place env d ptr (pos n) now
        ≡ ok (small_after ptr n, record { ptr = (get_small env d n).1.addr; size = pos n })
  unfolding place ltb_ℤ small_after
  place-small ptr n now h l = ground arith

  pub bytes_at-insert :
      (a : ℕ) (bs : List ℕ) (m : List (ℕ × List ℕ)) → bytes_at (insert a bs m) a ≡ bs
  bytes_at-insert a bs m = ground (arith, lookup-insert a a bs m)

  small_after-IsSame : (ptr n : ℕ) → IsSame d (small_after ptr n)
  unfolding small_after
  small_after-IsSame ptr n =
      let s = get_small-IsSame n in
      record {
        state = s.state;
        size = s.size;
        active = s.active;
        passive = s.passive;
        current_buffer = s.current_buffer;
        pool = s.pool;
        pending_heap = s.pending_heap;
        sequence = s.sequence;
        current_sequence = s.current_sequence;
        publishing = s.publishing;
        read_mode = s.read_mode;
      }

  place-big :
      (ptr n : ℕ) (now : T)
      → 32 * 1024 < n
      → place env d ptr (pos n) now
        ≡ ok (
          record d { big_data_pool = put_big d.big_data_pool ptr (pos n) },
          record { ptr = ptr; size = pos n },
        )
  unfolding place ltb_ℤ
  place-big ptr n now l = ground arith

  place-medium :
      (ptr n : ℕ) (now : T)
      → 1024 ≤ n
      → n ≤ 32 * 1024
      → place env d ptr (pos n) now
        ≡ ok (
          record d { medium_pool = put_medium env.since d.medium_pool ptr now },
          record { ptr = ptr; size = pos n },
        )
  unfolding place ltb_ℤ
  place-medium ptr n now h l = ground arith

  small-Evolves :
      (law : IsEnv env) (ptr n : ℕ) (held : List ℕ)
      → Evolves (memory d) held (memory (small_after ptr n)) ((get_small env d n).1.addr ∷ held)
  unfolding small_after
  small-Evolves law ptr n held =
      insert-Evolves held (bytes_at (get_small env d n).0.store ptr) (get_small-Takes env law d n)

module _ {T : Type 0} (env : Env T) (law : IsEnv env) (d : DoubleBuffer T) where
  -- What `Write` does first with n bytes at an address: it makes an item of that size, at whose
  -- address the same bytes stand, and changes nothing that shows.
  pub record Places (ptr n : ℕ) (now : T) : Type 0 where
    pub after : DoubleBuffer T
    pub item : BufferItem
    pub returns : place env d ptr (pos n) now ≡ ok (after, item)
    pub same : IsSame d after
    pub sized : item.size ≡ pos n
    pub copied : bytes_at after.store item.ptr ≡ bytes_at d.store ptr
    pub evolves : (held : List ℕ) → Evolves (memory d) held (memory after) held
    pub item_kept :
        (held : List ℕ)
        → IsFree (memory d) held
        → IsKept (memory d) held ptr
        → IsKept (memory after) held item.ptr

  pub place-Places : (ptr n : ℕ) (now : T) → 0 < n → Places ptr n now
  unfolding small_after
  place-Places ptr n now h = elim (dec_lt n 1024) [
    | yes small ↦ record {
      after = small_after env d ptr n;
      item = record { ptr = (get_small env d n).1.addr; size = pos n };
      returns = place-small env d ptr n now h small;
      same = small_after-IsSame env d ptr n;
      sized = refl;
      copied =
          bytes_at-insert env d (get_small env d n).1.addr _ _
          ∙ ap (λ (m : List (ℕ × List ℕ)). bytes_at m ptr) (store-get_small env d n);
      evolves = λ held.
          Evolves-trans (small-Evolves env d law ptr n held)
            (forget-Evolves (memory (small_after env d ptr n)) (get_small env d n).1.addr held);
      item_kept = λ held f k.
          forgotten-IsKept (memory (small_after env d ptr n)) held (get_small env d n).1.addr
            ((small-Evolves env d law ptr n held).free f);
    }
    | no k ↦ elim (dec_lt (32 * 1024) n) [
      | yes big ↦ record {
        after = record d { big_data_pool = put_big d.big_data_pool ptr (pos n) };
        item = record { ptr = ptr; size = pos n };
        returns = place-big env d ptr n now big;
        same = ground arith;
        sized = refl;
        copied = refl;
        evolves = λ held. Evolves-refl (memory d) held;
        item_kept = λ held f k. k;
      }
      | no j ↦ record {
        after = record d { medium_pool = put_medium env.since d.medium_pool ptr now };
        item = record { ptr = ptr; size = pos n };
        returns = place-medium env d ptr n now (omega arith) (omega arith);
        same = ground arith;
        sized = refl;
        copied = refl;
        evolves = λ held. Evolves-refl (memory d) held;
        item_kept = λ held f k. k;
      }
    ]
  ]
