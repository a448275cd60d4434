-- ===== src/P2p/Gorpc/Messages/Fields.antt =====
-- One field of a message, read back of what was appended, with or without bytes behind it.
use teleno.Base.{
  Bytes, Result, [], ap, append-nil, bytes_key, length, nat_key, ok, suc, sym, ℕ, ◌++◌, ◌<◌, ◌^◌,
  ◌∙◌, ◌≡◌,
}
use teleno.P2p.Gorpc.{append_map_header, append_raw, append_uint}
use teleno.P2p.Gorpc.Reader.{Error, read_uint, read_raw}
use teleno.P2p.Gorpc.Reader.Laws.{read_uint-append, read_raw-append, read_map_size-append}
use teleno.P2p.Gorpc.Messages.{read_fields, decode_fields}

pub read_raw_last : (v : Bytes) → length v < 2 ^ 32 → read_raw (append_raw v) ≡ ok (v, [])
read_raw_last v h = ap read_raw (sym (append-nil (append_raw v))) ∙ read_raw-append v [] h

pub read_uint_last : (v : ℕ) → v < 2 ^ 64 → read_uint (append_uint v) ≡ ok (v, [])
read_uint_last v h = ap read_uint (sym (append-nil (append_uint v))) ∙ read_uint-append v [] h

-- A field: its key, and then what its branch reads.
pub read_fields-append {ℓ} :
    {S : Type ℓ} (field : Bytes → S → Bytes → Result Error (S × Bytes)) (n : ℕ) (s s' : S)
    (key rest r : Bytes)
    → length key < 2 ^ 32
    → field key s rest ≡ ok (s', r)
    → read_fields field (suc n) s (append_raw key ++ rest) ≡ read_fields field n s' r
unfolding read_fields
read_fields-append field n s s' key rest r h e = rw (read_raw-append key rest h, e)

pub decode_fields-append {ℓ} :
    {S : Type ℓ} (field : Bytes → S → Bytes → Result Error (S × Bytes)) (n : ℕ) (s s' : S)
    (rest : Bytes)
    → n < 2 ^ 32
    → read_fields field n s rest ≡ ok (s', [])
    → decode_fields field s (append_map_header n ++ rest) ≡ ok s'
unfolding decode_fields
decode_fields-append field n s s' rest h e = rw (read_map_size-append n rest h, e)
