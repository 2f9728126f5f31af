-- ===== src/Samples.antt =====
-- The constants that the tests give the code: states that differ, as `ts` documents them.
use turbo_stream.Prelude.{ap, arith}
use turbo_stream.Prelude.Int.{pos, pos_part}
use turbo_stream.Outside.{States, AreDistinct}
use turbo_stream.SmartBuffer.{BufferItem}

abbrev pub states : States
states = record {
  write_only = pos 0;
  read_only = pos 1;
  switching = pos 2;
  writing_state = pos 0;
  switching_state = pos 1;
  closed_state = pos 3;
}

pub states-AreDistinct : AreDistinct states
states-AreDistinct = record {
  open_ne_read = λ e. omega (arith, ap pos_part e);
  open_ne_closed = λ e. omega (arith, ap pos_part e);
  open_ne_switching = λ e. omega (arith, ap pos_part e);
  read_ne_switching = λ e. omega (arith, ap pos_part e);
  read_ne_closed = λ e. omega (arith, ap pos_part e);
  writing_ne_switching = λ e. omega (arith, ap pos_part e);
  writing_ne_closed = λ e. omega (arith, ap pos_part e);
  switching_ne_closed = λ e. omega (arith, ap pos_part e);
}

-- Five bytes at an address.
abbrev pub item_at : BufferItem
item_at = record { ptr = 100; size = pos 5 }

abbrev pub other_item : BufferItem
other_item = record { ptr = 200; size = pos 7 }
