-- ===== src/Ahci/Command.antt =====
-- What the controller reads of a command that `setup_command` wrote.
use package.avaria.Prelude.{ℕ, suc, ◌+◌, ◌-◌, ◌*◌, ◌/◌, ◌%◌, ◌^◌, ◌<◌, ◌≤◌, bit_and}
use package.avaria.Prelude.{
  ◌≡◌, refl, ap, ◌∙◌, ◌⊎◌, arith, inl, inr, Bool, true, false, List, [], ◌∷◌, length, get_or, take,
  drop, replicate, le_value, test_bit, lt→ltb, le→ltb, le→leb, lt→leb, bit_and_low,
}
use package.avaria.Ahci.{Ram, store, load, command_header, prdt_entry, fis_reg_h2d, setup_command}

store_at :
    (ram : Ram) (at : ℕ) (bytes : List ℕ) (k : ℕ)
    → k < length bytes
    → store ram at bytes (at + k) ≡ get_or bytes k 0
store_at ram at bytes k h =
    let e : at + k - at ≡ k = omega arith in
    rw (le→leb at (at + k) (omega arith), lt→ltb (at + k) (at + length bytes) (omega arith), e) refl

store_outside :
    (ram : Ram) (at : ℕ) (bytes : List ℕ) (a : ℕ)
    → (a < at) ⊎ (at + length bytes ≤ a)
    → store ram at bytes a ≡ ram a
store_outside ram at bytes a (inl h) = rw (lt→leb at a h) refl
store_outside ram at bytes a (inr h) =
    rw (le→leb at a (omega arith), le→ltb a (at + length bytes) h) refl

load_bytes :
    (ram : Ram) (at : ℕ) (bytes : List ℕ)
    → ((k : ℕ) → k < length bytes → ram (at + k) ≡ get_or bytes k 0)
    → load ram at (length bytes) ≡ bytes
load_bytes ram at [] h = refl
load_bytes ram at (b ∷ bs) h =
    let here : ram at ≡ b = ap ram (omega arith) ∙ h 0 (omega arith) in
    rw here (
      ap (λ r. b ∷ r)
        (load_bytes ram (at + 1) bs λ k lt. ap ram (omega arith) ∙ h (suc k) (omega arith)))

-- A command as the controller takes it. Of the header: the length of the frame in words of 4 bytes,
-- whether memory is read, the number of table entries, and the count of transferred bytes. Of the frame:
-- its type, the bit that says that it holds a command, the bit that says that the sector counts all
-- sectors of the disk, the code, the sector and the number of sectors. Of the entry: the address and the
-- size of the buffer, which has 22 bits and is one less than the number of bytes.
pub record Request : Type 0 where
  pub frame_words : ℕ
  pub entries : ℕ
  pub transferred : ℕ
  pub frame_type : ℕ
  pub is_command : Bool
  pub lba_mode : Bool
  pub code : ℕ
  pub lba : ℕ
  pub count : ℕ
  pub address : ℕ
  pub bytes : ℕ
  pub writes : Bool

abbrev pub decode_frame : List ℕ → List ℕ → List ℕ → Request
decode_frame header entry frame = record {
  frame_words = get_or header 0 0 % 2 ^ 5;
  entries = le_value (take 2 (drop 2 header));
  transferred = le_value (take 4 (drop 4 header));
  frame_type = get_or frame 0 0;
  is_command = test_bit (get_or frame 1 0) 7;
  lba_mode = test_bit (get_or frame 7 0) 6;
  code = get_or frame 2 0;
  lba =
      get_or frame 4 0
      + 2 ^ 8 * get_or frame 5 0
      + 2 ^ 16 * get_or frame 6 0
      + 2 ^ 24 * get_or frame 8 0
      + 2 ^ 32 * get_or frame 9 0
      + 2 ^ 40 * get_or frame 10 0;
  count = get_or frame 12 0 + 2 ^ 8 * get_or frame 13 0;
  address = le_value (take 8 entry);
  bytes = le_value (take 4 (drop 12 entry)) % 2 ^ 22 + 1;
  writes = test_bit (le_value (take 2 header)) 6;
}

unfoldable pub decode : Ram → ℕ → ℕ → Request
decode ram header_at table_at =
    decode_frame (load ram header_at 8) (load ram (table_at + 128) 16) (load ram table_at 16)

module _ (ram : Ram) (header_at table_at command lba count buf_phys buf_size : ℕ)
    (write : Bool) where
  abbrev frame : List ℕ
  frame = fis_reg_h2d command lba count

  abbrev entry : List ℕ
  entry = prdt_entry buf_phys buf_size

  abbrev cleared : Ram
  cleared = store ram table_at (replicate 144 0)

  abbrev with_header : Ram
  with_header = store cleared header_at (command_header write)

  abbrev with_entry : Ram
  with_entry = store with_header (table_at + 128) entry

  abbrev after : Ram
  after = store with_entry table_at frame

  frame_back : load after table_at 16 ≡ frame
  frame_back = load_bytes after table_at frame λ k lt. store_at with_entry table_at frame k lt

  entry_back : load after (table_at + 128) 16 ≡ entry
  entry_back = load_bytes after (table_at + 128) entry λ k lt.
      store_outside with_entry table_at frame (table_at + 128 + k) (inr (omega arith))
      ∙ store_at with_header (table_at + 128) entry k lt

  module _ (apart : (header_at + 8 ≤ table_at) ⊎ (table_at + 144 ≤ header_at)) where
    header_back : load after header_at 8 ≡ command_header write
    header_back = load_bytes after header_at (command_header write) λ k lt.
        store_outside with_entry table_at frame (header_at + k)
          (elim apart [ inl h ↦ inl (omega arith) | inr h ↦ inr (omega arith) ])
        ∙ (store_outside with_header (table_at + 128) entry (header_at + k)
              (elim apart [ inl h ↦ inl (omega arith) | inr h ↦ inr (omega arith) ])
            ∙ store_at cleared header_at (command_header write) k lt)

lba_back :
    (lba : ℕ)
    → lba < 2 ^ 48
    → bit_and lba 0xFF
        + 2 ^ 8 * bit_and (lba / 2 ^ 8) 0xFF
        + 2 ^ 16 * bit_and (lba / 2 ^ 16) 0xFF
        + 2 ^ 24 * bit_and (lba / 2 ^ 24) 0xFF
        + 2 ^ 32 * bit_and (lba / 2 ^ 32) 0xFF
        + 2 ^ 40 * bit_and (lba / 2 ^ 40) 0xFF
      ≡ lba
lba_back lba h = omega (
  arith,
  bit_and_low 8 lba,
  bit_and_low 8 (lba / 2 ^ 8),
  bit_and_low 8 (lba / 2 ^ 16),
  bit_and_low 8 (lba / 2 ^ 24),
  bit_and_low 8 (lba / 2 ^ 32),
  bit_and_low 8 (lba / 2 ^ 40),
)

count_back :
    (count : ℕ) → count < 2 ^ 16 → bit_and count 0xFF + 2 ^ 8 * bit_and (count / 2 ^ 8) 0xFF ≡ count
count_back count h = omega (arith, bit_and_low 8 count, bit_and_low 8 (count / 2 ^ 8))

address_back :
    (buf_phys buf_size : ℕ)
    → buf_phys < 2 ^ 64
    → le_value (take 8 (prdt_entry buf_phys buf_size)) ≡ buf_phys
address_back buf_phys buf_size h = omega arith

bytes_back :
    (buf_phys buf_size : ℕ)
    → 0 < buf_size
    → buf_size ≤ 2 ^ 22
    → le_value (take 4 (drop 12 (prdt_entry buf_phys buf_size))) % 2 ^ 22 + 1 ≡ buf_size
bytes_back buf_phys buf_size pos le = omega arith

frame_words_back : (write : Bool) → get_or (command_header write) 0 0 % 2 ^ 5 ≡ 5
frame_words_back true = refl
frame_words_back false = refl

writes_back : (write : Bool) → test_bit (le_value (take 2 (command_header write))) 6 ≡ write
writes_back true = refl
writes_back false = refl

decode_frame_eq :
    {h h' e e' f f' : List ℕ}
    → h ≡ h'
    → e ≡ e'
    → f ≡ f'
    → decode_frame h e f ≡ decode_frame h' e' f'
decode_frame_eq p q r = rw (p, q, r) refl

same_request :
    (code : ℕ) {k k' l l' n n' a a' b b' : ℕ} {w w' : Bool}
    → k ≡ k'
    → l ≡ l'
    → n ≡ n'
    → a ≡ a'
    → b ≡ b'
    → w ≡ w'
    → (let q : Request = record {
      frame_words = k;
      entries = 1;
      transferred = 0;
      frame_type = 0x27;
      is_command = true;
      lba_mode = true;
      code = code;
      lba = l;
      count = n;
      address = a;
      bytes = b;
      writes = w;
    } in
        q)
      ≡ record {
        frame_words = k';
        entries = 1;
        transferred = 0;
        frame_type = 0x27;
        is_command = true;
        lba_mode = true;
        code = code;
        lba = l';
        count = n';
        address = a';
        bytes = b';
        writes = w';
      }
same_request code o p q r s t = rw (o, p, q, r, s, t) refl

decoded :
    (command lba count buf_phys buf_size : ℕ) (write : Bool)
    → lba < 2 ^ 48
    → count < 2 ^ 16
    → buf_phys < 2 ^ 64
    → 0 < buf_size
    → buf_size ≤ 2 ^ 22
    → decode_frame
        (command_header write)
        (prdt_entry buf_phys buf_size)
        (fis_reg_h2d command lba count)
      ≡ record {
        frame_words = 5;
        entries = 1;
        transferred = 0;
        frame_type = 0x27;
        is_command = true;
        lba_mode = true;
        code = command;
        lba = lba;
        count = count;
        address = buf_phys;
        bytes = buf_size;
        writes = write;
      }
decoded command lba count buf_phys buf_size write hl hc ha hp hs =
    same_request command (frame_words_back write) (lba_back lba hl) (count_back count hc)
      (address_back buf_phys buf_size ha) (bytes_back buf_phys buf_size hp hs) (writes_back write)

-- For a header and a table that do not overlap, a sector below 2 ^ 48, a count below 2 ^ 16, an address
-- below 2 ^ 64 and a buffer of 1 to 2 ^ 22 bytes, the controller reads of what `setup_command` wrote
-- the command that was asked for, in a frame of five words of the type that goes to a device, marked as
-- a command, with a sector that counts all of the disk's, and with one entry and nothing transferred.
pub decode-setup_command :
    (ram : Ram) (header_at table_at command lba count buf_phys buf_size : ℕ) (write : Bool)
    → (header_at + 8 ≤ table_at) ⊎ (table_at + 144 ≤ header_at)
    → lba < 2 ^ 48
    → count < 2 ^ 16
    → buf_phys < 2 ^ 64
    → 0 < buf_size
    → buf_size ≤ 2 ^ 22
    → decode
        (setup_command ram header_at table_at command lba count buf_phys buf_size write)
        header_at
        table_at
      ≡ record {
        frame_words = 5;
        entries = 1;
        transferred = 0;
        frame_type = 0x27;
        is_command = true;
        lba_mode = true;
        code = command;
        lba = lba;
        count = count;
        address = buf_phys;
        bytes = buf_size;
        writes = write;
      }
unfolding setup_command decode
decode-setup_command ram header_at table_at command lba count buf_phys buf_size write apart hl hc ha
      hp hs =
    let fields = decoded command lba count buf_phys buf_size write hl hc ha hp hs in
    decode_frame_eq
      (header_back ram header_at table_at command lba count buf_phys buf_size write apart)
      (entry_back ram header_at table_at command lba count buf_phys buf_size write)
      (frame_back ram header_at table_at command lba count buf_phys buf_size write)
    ∙ fields
