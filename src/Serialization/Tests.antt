-- ===== src/Serialization/Tests.antt =====
-- A stream with a value of each kind, written and read.
use kiss_vm_interpreter.Prelude.{◌≡◌, refl, true, List, [], ◌∷◌, some, Bytes, codes, arith}
use kiss_vm_interpreter.Serialization.{
  write_u_int8, write_bool, write_u_int16, write_u_int32, write_u_int64, u_int64_from, write_bytes,
  open_buffer, write_length_prefixed_bytes, write_length_prefixed_string,
}
use kiss_vm_interpreter.Serialization.Fields.{
  Field, u_int8, u_int16, u_int32, u_int64, bool, bytes, prefixed_bytes, prefixed_string, write,
  write_all, read_all, formats, AllInRange, InRange,
}
use kiss_vm_interpreter.Serialization.RoundTrip.{read_all-write_all}

abbrev fields : List Field
fields =
    u_int8 7
    ∷ u_int16 515
    ∷ u_int32 70000
    ∷ u_int64 1099511627777
    ∷ bool true
    ∷ bytes (codes "xyz")
    ∷ prefixed_bytes (codes "AB")
    ∷ prefixed_string (codes "C")
    ∷ []

abbrev buffer : Bytes
buffer =
    7 ∷ 2 ∷ 3 ∷ 0 ∷ 1 ∷ 17 ∷ 112 ∷ 0 ∷ 0 ∷ 1 ∷ 0 ∷ 0 ∷ 0 ∷ 0 ∷ 1 ∷ 1 ∷ 120 ∷ 121 ∷ 122 ∷ 0 ∷ 0 ∷ 0
    ∷ 2 ∷ 65 ∷ 66 ∷ 0 ∷ 1 ∷ 67 ∷ []

fields-AllInRange : AllInRange fields
unfolding AllInRange InRange
fields-AllInRange =
    (omega arith, (omega arith, (omega arith, (omega arith, (tt, (tt, (omega arith, (tt, tt))))))))

fields-written : write_all fields [] ≡ some buffer
unfolding write_all write write_u_int8 write_bool write_u_int16 write_u_int32 write_u_int64
    u_int64_from write_bytes write_length_prefixed_bytes write_length_prefixed_string
fields-written = refl

read_all-write_all_example :
    read_all (formats fields) (open_buffer buffer) ≡ some (fields, record { left = []; pos = 28 })
read_all-write_all_example = read_all-write_all fields buffer fields-AllInRange fields-written
