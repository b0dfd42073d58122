-- ===== src/Muduo/TcpConnection/Callbacks.antt =====
-- include/TcpConnection.hpp: the setters of the two callbacks that a connection may be without.
use learn_note.Prelude.{ℕ, Bool}
use learn_note.Muduo.TcpConnection.{Connection}

unfoldable pub set_write_complete_callback : Connection → (given : Bool) → Connection
set_write_complete_callback c given = record c { has_write_complete = given }

unfoldable pub set_high_water_mark_callback :
    Connection → (given : Bool) → (high_water_mark : ℕ) → Connection
set_high_water_mark_callback c given high_water_mark = record c {
  has_high_water = given;
  high_water_mark = high_water_mark;
}
