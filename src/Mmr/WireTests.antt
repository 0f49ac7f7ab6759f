-- ===== src/Mmr/WireTests.antt =====
-- A proof over nodes that are one byte on the wire, written and read.
use kiss_vm_interpreter.Prelude.{
  ℕ, ◌≡◌, refl, Bool, true, false, List, [], ◌∷◌, some, length, arith,
}
use kiss_vm_interpreter.Serialization.{
  write_bool, read_bool, read_u_int8, advance, split_at?, joined, open_buffer,
}
use kiss_vm_interpreter.Mmr.{MmrProof}
use kiss_vm_interpreter.Mmr.Wire.{
  NodeFormat, Reads, Writes, serialise, deserialise, deserialise-serialise,
}

abbrev bool_byte : Bool → List ℕ
bool_byte true = 1 ∷ []
bool_byte false = 0 ∷ []

write_bool-Writes : (b : Bool) → Writes (write_bool b) (bool_byte b)
unfolding write_bool
write_bool-Writes true buf = refl
write_bool-Writes false buf = refl

read_bool-Reads : (b : Bool) → Reads read_bool (bool_byte b) b
unfolding read_bool read_u_int8 advance split_at? joined
read_bool-Reads true rest pos = refl
read_bool-Reads false rest pos = refl

abbrev bool_format : NodeFormat Bool
bool_format = record {
  write_node = write_bool;
  read_node = read_bool;
  node_bytes = bool_byte;
  writes = write_bool-Writes;
  reads = read_bool-Reads;
}

abbrev proof : MmrProof Bool
proof = record {
  blocktime = 5;
  entry = 1;
  leaf = true;
  chain = false ∷ [];
  left_peaks = [];
  right_peaks = true ∷ [];
}

written_and_read :
    deserialise bool_format (open_buffer (serialise bool_format proof []))
    ≡ some (proof, record { left = []; pos = length (serialise bool_format proof []) })
written_and_read =
    let read = deserialise-serialise bool_format proof in
    read (omega arith, omega arith, omega arith, omega arith, omega arith)
