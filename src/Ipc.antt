-- ===== src/Ipc.antt =====
-- `src/kern/arch/x86_64/ipc.rs`: messages, the ring of a channel, the table of channels, the lock.
-- The atomics are read and written in program order; the lock's interleavings are in `Ipc.Lock`.
pub mod Messages
pub mod Rings
pub mod Service
pub mod Table
pub mod Channels
pub mod Lock
mod Tests
use package.avaria.Prelude.{ℕ, ◌+◌, ◌-◌, ◌*◌, ◌%◌, ◌^◌, ◌<◌, min, Bool, true, false, not, ◌==◌, leb}
use package.avaria.Prelude.{
  if◌then◌else◌, Option, none, some, List, [], ◌∷◌, ◌++◌, length, take, drop, set,
}
use package.avaria.Prelude.{get_or, replicate, add_w, sub_w, le_bytes, le_value}

abbrev pub max_channels : ℕ
max_channels = 32

abbrev pub ring_size : ℕ
ring_size = 64

abbrev pub msg_size : ℕ
msg_size = 64

-- `Message`; `payload` is its field `data`, 56 bytes.
pub record Message : Type 0 where
  pub src : ℕ
  pub msg_type : ℕ
  pub payload : List ℕ

abbrev pub empty_message : Message
empty_message = record { src = 0; msg_type = 0; payload = replicate (msg_size - 8) 0 }

pub new_message : ℕ → ℕ → Message
new_message src msg_type = record {
  src = src;
  msg_type = msg_type;
  payload = replicate (msg_size - 8) 0;
}

pub with_u64 : Message → ℕ → Message
with_u64 m val = record m { payload = le_bytes 8 val ++ drop 8 m.payload }

pub read_u64 : Message → ℕ
read_u64 m = le_value (take 8 m.payload)

pub with_bytes : Message → List ℕ → Message
with_bytes m bytes =
    let len = min (length bytes) (length m.payload) in
    record m { payload = take len bytes ++ drop len m.payload }

pub record RingBuffer : Type 0 where
  pub buf : List Message
  pub head : ℕ
  pub tail : ℕ

abbrev pub new_ring : RingBuffer
new_ring = record { buf = replicate ring_size empty_message; head = 0; tail = 0 }

-- An index out of the 64 slots would panic; `Rings.IsValid` rules it out.
pub push : RingBuffer → Message → RingBuffer × Bool
push r msg =
    let next = add_w 32 r.head 1 % ring_size in
    if next == r.tail
    then (r, false)
    else (record r { buf = set r.buf r.head msg; head = next }, true)

pub pop : RingBuffer → RingBuffer × Option Message
pop r = if r.tail == r.head then (r, none) else (
  record r { tail = add_w 32 r.tail 1 % ring_size },
  some (get_or r.buf r.tail empty_message),
)

pub is_empty : RingBuffer → Bool
is_empty r = r.tail == r.head

pub len : RingBuffer → ℕ
len r = sub_w 64 (add_w 64 r.head ring_size) r.tail % ring_size

pub record Channel : Type 0 where
  pub active : Bool
  pub ring : RingBuffer
  pub owner : ℕ

abbrev pub new_channel : Channel
new_channel = record { active = false; ring = new_ring; owner = 0 }

-- `CHANNELS` and `NEXT_CHANNEL`.
pub record Ipc : Type 0 where
  pub channels : List Channel
  pub next_channel : ℕ

abbrev pub start : Ipc
start = record { channels = replicate max_channels new_channel; next_channel = 0 }

abbrev pub channel : Ipc → ℕ → Channel
channel s idx = get_or s.channels idx new_channel

abbrev pub put_channel : Ipc → ℕ → Channel → Ipc
put_channel s idx ch = record s { channels = set s.channels idx ch }

pub create_channel : Ipc → ℕ → Ipc × Option ℕ
create_channel s owner =
    let id = s.next_channel in
    let bumped = record s { next_channel = add_w 32 id 1 } in
    if leb max_channels id
    then (record s { next_channel = sub_w 32 (add_w 32 id 1) 1 }, none)
    else (
      put_channel bumped id (record (channel bumped id) { active = true; owner = owner }),
      some id,
    )

pub send : Ipc → ℕ → Message → Ipc × Bool
unfolding push
send s idx msg =
    let ch = channel s idx in
    let (ring, sent) = push ch.ring msg in
    if leb max_channels idx
    then (s, false)
    else if not ch.active
    then (s, false)
    else (put_channel s idx (record ch { ring = ring }), sent)

pub recv : Ipc → ℕ → Ipc × Option Message
unfolding pop
recv s idx =
    let ch = channel s idx in
    let (ring, msg) = pop ch.ring in
    if leb max_channels idx
    then (s, none)
    else if not ch.active
    then (s, none)
    else (put_channel s idx (record ch { ring = ring }), msg)

pub peek : Ipc → ℕ → Bool
unfolding is_empty
peek s idx = if leb max_channels idx then false else not (is_empty (channel s idx).ring)

pub pending : Ipc → ℕ → ℕ
unfolding len
pending s idx = if leb max_channels idx then 0 else len (channel s idx).ring

pub destroy_channel : Ipc → ℕ → Ipc
destroy_channel s idx =
    if leb max_channels idx
    then s
    else put_channel s idx (record (channel s idx) { active = false })

-- The calls that change the table, and what each returns.
pub data Call : Type 0 where
  create : ℕ → Call
  post : ℕ → Message → Call
  fetch : ℕ → Call
  destroy : ℕ → Call

pub data Reply : Type 0 where
  created : Option ℕ → Reply
  posted : Bool → Reply
  fetched : Option Message → Reply
  destroyed : Reply

pub serve : Ipc → Call → Ipc × Reply
unfolding create_channel send recv destroy_channel
serve s (create owner) = let (s', id) = create_channel s owner in (s', created id)
serve s (post idx msg) = let (s', sent) = send s idx msg in (s', posted sent)
serve s (fetch idx) = let (s', msg) = recv s idx in (s', fetched msg)
serve s (destroy idx) = (destroy_channel s idx, destroyed)

pub serve_all : Ipc → List Call → List Reply
unfolding serve
serve_all s [] = []
serve_all s (c ∷ cs) = let (s', r) = serve s c in r ∷ serve_all s' cs
