-- ===== src/Ipc/Messages.antt =====
-- The payload of a message (`Message` of `src/kern/arch/x86_64/ipc.rs`).
use avaria.Prelude.{ℕ, ◌^◌, ◌<◌, ◌≡◌, ap, ◌∙◌, refl, arith, length}
use avaria.Prelude.{drop, le_bytes, length-append, length-drop, length-le_bytes}
use avaria.Prelude.{le_value, le_value-le_bytes, take-append_le_bytes}
use avaria.Ipc.{Message, with_u64, read_u64}

-- The size that the fixed array of the source gives a payload.
abbrev pub IsSized : Message → Type 0
IsSized m = length m.payload ≡ 56

-- A 64-bit value that `with_u64` stores is what `read_u64` reads, and the message keeps its size,
-- its source and its type.
pub read_u64-with_u64 :
    (m : Message) (val : ℕ)
    → val < 2 ^ 64
    → IsSized m
    → (read_u64 (with_u64 m val) ≡ val)
      × IsSized (with_u64 m val)
      × ((with_u64 m val).src ≡ m.src)
      × ((with_u64 m val).msg_type ≡ m.msg_type)
unfolding with_u64 read_u64
read_u64-with_u64 m val h size = (
  ap le_value (take-append_le_bytes 8 val (drop 8 m.payload)) ∙ le_value-le_bytes 8 val h,
  omega (
    arith,
    length-append (le_bytes 8 val) (drop 8 m.payload),
    length-le_bytes 8 val,
    length-drop 8 m.payload,
  ),
  refl,
  refl,
)
