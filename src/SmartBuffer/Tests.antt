-- ===== src/SmartBuffer/Tests.antt =====
-- component/smart_buffer.go: runs of a buffer of capacity 2.
use turbo_stream.Prelude.{◌≡◌, refl, ap, arith, true, false, List, [], ◌∷◌}
use turbo_stream.Prelude.Int.{pos, pos_part}
use turbo_stream.Outside
use turbo_stream.Outside.{ok, err}
use turbo_stream.Samples.{states, states-AreDistinct, item_at, other_item}
use turbo_stream.SmartBuffer.{no_item, SmartBuffer, push}
use turbo_stream.SmartBuffer.Fifo.{push-full}
use turbo_stream.SmartBuffer.Stored.{Holds}
use turbo_stream.SmartBuffer.Script.{Op, writes, pops, resets, run, abstract_run, run-Refines}

-- One item was read, the next stands in the first slot.
abbrev turned : SmartBuffer
turned = record {
  buf = item_at ∷ no_item ∷ [];
  head = pos 1;
  tail = pos 0;
  count = pos 1;
  capacity = pos 2;
  state = pos 0;
  sem_closed = false;
}

turned-Holds : Holds 2 turned 1 (item_at ∷ [])
turned-Holds = record {
  room = refl;
  small = omega arith;
  sized = refl;
  head_at = refl;
  tail_at = refl;
  counted = refl;
  fits = omega arith;
  stored = (refl, tt);
}

abbrev filled : SmartBuffer
filled = record turned { buf = item_at ∷ other_item ∷ []; head = pos 2; count = pos 2 }

filled-Holds : Holds 2 filled 1 (item_at ∷ other_item ∷ [])
filled-Holds = record {
  room = refl;
  small = omega arith;
  sized = refl;
  head_at = refl;
  tail_at = refl;
  counted = refl;
  fits = omega arith;
  stored = (refl, (refl, tt));
}

abbrev script : List Op
script = writes other_item ∷ writes item_at ∷ pops ∷ pops ∷ pops ∷ resets ∷ writes item_at ∷ []

run-Refines_example :
    run states turned script ≡ abstract_run 2 (record { items = item_at ∷ []; open_ = true }) script
run-Refines_example =
    run-Refines states states-AreDistinct 2 1 script (omega arith)
      (record { holds = turned-Holds; mode = refl })

push-full_example :
    push states filled item_at ≡ (record filled { state = pos 1 }, err Outside.read_only)
push-full_example =
    push-full states filled-Holds item_at (λ e. omega (arith, ap pos_part e)) refl refl
