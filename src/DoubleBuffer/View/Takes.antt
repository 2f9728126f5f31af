-- ===== src/DoubleBuffer/View/Takes.antt =====
-- `tryRead` as a whole: from the current buffer while it holds items, else from the pending buffer
-- whose turn it is.
use turbo_stream.Prelude.{
  ℕ, ◌+◌, ◌<◌, ◌≡◌, refl, sym, ◌∙◌, ap, subst, arith, true, false, Option, none, some, List, [],
  ◌∷◌, length,
}
use turbo_stream.Prelude.Int.{pos, half32, ==ℤ_of_eq, ==ℤ_of_ne}
use turbo_stream.Outside
use turbo_stream.Outside.{Result, ok, err, panic}
use turbo_stream.SmartBuffer.{BufferItem, SmartBuffer}
use turbo_stream.SmartBuffer.Stored.{Holds}
use turbo_stream.MinHeap.{MinHeap}
use turbo_stream.DoubleBuffer.{Env, DataChunk, DoubleBuffer}
use turbo_stream.DoubleBuffer.Read.{
  read_current, try_read, has_data, drop_current, drop_from, pick_loop, max_retries,
}
use turbo_stream.DoubleBuffer.Memory.{memory, Evolves-trans, eq-Evolves}
use turbo_stream.DoubleBuffer.Write.{bytes_at}
use turbo_stream.DoubleBuffer.View.{IsEnv, Parts, CurrentHolds, HeapHolds, Shows}
use turbo_stream.DoubleBuffer.View.Reads.{
  HasMode, IsItem, ReadsItem, read_current-ReadsItem, read_current-empty,
}
use turbo_stream.DoubleBuffer.View.Picks.{dropped-Shows, picked, pick_loop-empty, heap-PicksFirst}

-- `tryRead` as a whole: `between` is what other goroutines do between two of its attempts.
module _ {T : Type 0} (env : Env T) (law : IsEnv env) {c : ℕ} {d : DoubleBuffer T} {p : Parts}
    (v : Shows env law c d p) (between : DoubleBuffer T → DoubleBuffer T) (now : T) where
  has_data-some :
      (b : SmartBuffer) (n : ℕ) (x : BufferItem) (xs : List BufferItem)
      → d.current_buffer ≡ some b
      → Holds c b n (x ∷ xs)
      → has_data env d ≡ true
  unfolding has_data
  has_data-some b n x xs e h = rw (e, ==ℤ_of_ne b.count (pos 0) (λ q. ground (arith, h.counted)))

  try_read-has_data : has_data env d ≡ true → try_read env between d now ≡ read_current env d now
  unfolding try_read
  try_read-has_data e = rw (e, try_read)

  -- While the current buffer holds items of which the first has a pointer and a size, and SafeRead or
  -- ZeroCopyRead is registered, `tryRead` returns the bytes of the first and leaves the rest, as long
  -- as the buffer's counter stays below 2^31.
  pub try_read-current :
      (b : SmartBuffer) (n : ℕ) (x : BufferItem) (xs : List BufferItem)
      → HasMode env d now
      → IsItem x
      → d.current_buffer ≡ some b
      → Holds c b n (x ∷ xs)
      → n + length (x ∷ xs) < half32
      → ReadsItem env law c d x (record p { current = xs }) (try_read env between d now)
  try_read-current b n x xs m i e h bound =
      subst (ReadsItem env law c d x (record p { current = xs }))
        (sym (try_read-has_data (has_data-some b n x xs e h)))
        (read_current-ReadsItem env law v now b x xs n m i e h bound)

  -- Nothing is left in the current buffer.
  has_data-none :
      (o : Option SmartBuffer) → d.current_buffer ≡ o → CurrentHolds c o [] → has_data env d ≡ false
  unfolding has_data
  has_data-none none e h = rw e refl
  has_data-none (some b) e (n, h, bound) = rw (e, ==ℤ_of_eq b.count (pos 0) h.counted)

  try_read-pick :
      (e : DoubleBuffer T)
      → has_data env d ≡ false
      → pick_loop env between max_retries (drop_current env d) ≡ ok (e, true)
      → try_read env between d now ≡ read_current env e now
  unfolding try_read
  try_read-pick e h r = rw (h, try_read, r)

  try_read-no_pick :
      (e : DoubleBuffer T)
      → has_data env d ≡ false
      → pick_loop env between max_retries (drop_current env d) ≡ ok (e, false)
      → try_read env between d now ≡ (e, err Outside.no_buffer)
  unfolding try_read
  try_read-no_pick e h r = rw (h, try_read, r)

  kept-drop_from :
      (o : Option SmartBuffer)
      → ((drop_from env d o).store ≡ d.store)
        × ((drop_from env d o).read_mode ≡ d.read_mode)
        × ((drop_from env d o).pending_heap ≡ d.pending_heap)
        × (memory (drop_from env d o) ≡ memory d)
        × ((drop_from env d o).sequence ≡ d.sequence)
  unfolding drop_from
  kept-drop_from none = (refl, refl, refl, refl, refl)
  kept-drop_from (some b) = (refl, refl, refl, refl, refl)

  -- The double buffer without its current buffer.
  abbrev dropped : DoubleBuffer T
  dropped = drop_from env d d.current_buffer

  drop_current-dropped : drop_current env d ≡ dropped
  unfolding drop_current
  drop_current-dropped = refl

  -- The view once the first pending buffer is the current one.
  picked-Shows :
      {e : DoubleBuffer T} {q : Parts} (w : Shows env law c e q) (rest : MinHeap) (b : SmartBuffer)
      (l : List BufferItem) (ls : List (List BufferItem))
      → Holds c b 0 l
      → HeapHolds env law c (picked env law w rest b) ls
      → Shows env law c (picked env law w rest b) (record q { current = l; heaped = ls })
  unfolding picked
  picked-Shows w rest b l ls h left = record {
    open_ = w.open_;
    sized = w.sized;
    positive = w.positive;
    small = w.small;
    active_holds = w.active_holds;
    active_mode = w.active_mode;
    passive_fresh = w.passive_fresh;
    pool_fresh = w.pool_fresh;
    current_holds = (0, h, omega (arith, h.fits, h.small));
    heap_holds = left;
    unpublished_hold = w.unpublished_hold;
  }

  -- Where nothing is left in the current buffer, the first item of the buffer on the heap with the
  -- lowest sequence number has a pointer and a size, and SafeRead or ZeroCopyRead is registered,
  -- `tryRead` returns the bytes of that item; the rest of its buffer becomes the current one and the
  -- other unread items stay in their order.
  pub try_read-pending :
      (x : BufferItem) (xs : List BufferItem) (ls : List (List BufferItem))
      → HasMode env d now
      → IsItem x
      → p.current ≡ []
      → p.heaped ≡ (x ∷ xs) ∷ ls
      → ReadsItem env law c d x
          (record p { current = xs; heaped = ls })
          (try_read env between d now)
  unfolding picked
  try_read-pending x xs ls m i none_left first =
      let holds = subst (CurrentHolds c d.current_buffer) none_left v.current_holds in
      let (w, e) = dropped-Shows env law v d.current_buffer refl holds in
      let (store, mode, heap, same, sequence) = kept-drop_from d.current_buffer in
      let f =
        heap-PicksFirst env law w (x ∷ xs) ls
          (subst (HeapHolds env law c dropped) first w.heap_holds) in
      let u = picked-Shows w f.rest f.buffer (x ∷ xs) ls f.holds f.heap_left in
      let r =
        read_current-ReadsItem env law u now f.buffer x xs 0 (rw mode m) i refl f.holds
          (omega (arith, f.holds.fits, f.holds.small)) in
      let eq =
        try_read-pick (picked env law w f.rest f.buffer) (has_data-none d.current_buffer refl holds)
          (ap (pick_loop env between max_retries) drop_current-dropped ∙ f.returns between) in
      subst (ReadsItem env law c d x (record p { current = xs; heaped = ls })) (sym eq) (record {
        chunk = r.chunk;
        succeeds = r.succeeds;
        sized = r.sized;
        read = r.read ∙ ap (λ (s : List (ℕ × List ℕ)). bytes_at s x.ptr) store;
        shows = r.shows;
        mode = r.mode ∙ mode;
        sequence = r.sequence ∙ sequence;
        evolves = λ held. Evolves-trans (eq-Evolves held same) (r.evolves held);
        chunk_kept = λ held f k.
            r.chunk_kept held ((eq-Evolves held same).free f)
              ((eq-Evolves held same).kept x.ptr f k);
      })

  -- Where nothing is left in the current buffer and the heap is empty, `tryRead` returns ErrNoBuffer
  -- and the unread items, the read mode, the numbers drawn and the arrays in use stay as they were.
  pub try_read-none :
      d.pending_heap ≡ []
      → p.current ≡ []
      → ((try_read env between d now).1 ≡ err Outside.no_buffer)
        × Shows env law c (try_read env between d now).0 p
        × (memory (try_read env between d now).0 ≡ memory d)
        × ((try_read env between d now).0.read_mode ≡ d.read_mode)
        × ((try_read env between d now).0.sequence ≡ d.sequence)
  try_read-none empty none_left =
      let holds = subst (CurrentHolds c d.current_buffer) none_left v.current_holds in
      let (w, e) = dropped-Shows env law v d.current_buffer refl holds in
      let (store, mode, heap, same, sequence) = kept-drop_from d.current_buffer in
      let eq = try_read-no_pick dropped (has_data-none d.current_buffer refl holds) (
        ap (pick_loop env between max_retries) drop_current-dropped
        ∙ pick_loop-empty env law w between 2 (heap ∙ empty)) in
      subst
        (λ (r : DoubleBuffer T × Result DataChunk).
          (r.1 ≡ err Outside.no_buffer)
          × Shows env law c r.0 p
          × (memory r.0 ≡ memory d)
          × (r.0.read_mode ≡ d.read_mode)
          × (r.0.sequence ≡ d.sequence))
        (sym eq)
        (
          refl,
          subst (Shows env law c dropped)
              (ap (λ (l : List BufferItem). record p { current = l }) (sym none_left)) w,
          same,
          mode,
          sequence,
        )

  -- Where nothing is left in the current buffer and the buffer whose turn it is holds nothing, `tryRead`
  -- returns ErrRead, and goes on to the next buffer at its next call.
  pub try_read-skips :
      (ls : List (List BufferItem))
      → HasMode env d now
      → p.current ≡ []
      → p.heaped ≡ [] ∷ ls
      → ((try_read env between d now).1 ≡ err Outside.read_failed)
        × Shows env law c (try_read env between d now).0 (record p { current = []; heaped = ls })
        × (memory (try_read env between d now).0 ≡ memory d)
        × ((try_read env between d now).0.read_mode ≡ d.read_mode)
        × ((try_read env between d now).0.sequence ≡ d.sequence)
  unfolding picked
  try_read-skips ls m none_left first =
      let holds = subst (CurrentHolds c d.current_buffer) none_left v.current_holds in
      let (w, e) = dropped-Shows env law v d.current_buffer refl holds in
      let (store, mode, heap, same, sequence) = kept-drop_from d.current_buffer in
      let f =
        heap-PicksFirst env law w [] ls (subst (HeapHolds env law c dropped) first w.heap_holds) in
      let u = picked-Shows w f.rest f.buffer [] ls f.holds f.heap_left in
      let eq =
        try_read-pick (picked env law w f.rest f.buffer) (has_data-none d.current_buffer refl holds)
          (ap (pick_loop env between max_retries) drop_current-dropped ∙ f.returns between)
        ∙ read_current-empty env law (picked env law w f.rest f.buffer) now f.buffer (rw mode m)
            refl f.holds in
      subst
        (λ (r : DoubleBuffer T × Result DataChunk).
          (r.1 ≡ err Outside.read_failed)
          × Shows env law c r.0 (record p { current = []; heaped = ls })
          × (memory r.0 ≡ memory d)
          × (r.0.read_mode ≡ d.read_mode)
          × (r.0.sequence ≡ d.sequence))
        (sym eq) (refl, u, same, mode, sequence)
