-- ===== src/StateDb/Backend.antt =====
-- koinos/state_db/backends: the state that every backend keeps beside its objects
-- (backend.hpp, backend.cpp), and the in-memory backend over `std::map` (map/map_backend.cpp).
-- A multihash is its bytes. Of a `protocol::block_header`, which is generated code, the fields that
-- the state database reads are kept.
use teleno.Base.{bytes_key, ℕ, Option, [], Bytes, length}
use teleno.StdMap
use teleno.StdMap.{Map}

pub record BlockHeader : Type 0 where
  pub height : ℕ
  pub timestamp : ℕ
  pub previous : Bytes
  pub signer : Bytes

abbrev pub empty_header : BlockHeader
empty_header = record { height = 0; timestamp = 0; previous = []; signer = [] }

pub record Backend : Type 0 where
  pub objects : Map Bytes Bytes
  pub revision : ℕ
  pub id : Bytes
  pub merkle_root : Bytes
  pub header : BlockHeader

-- `crypto::multihash::zero( sha2_256 )` belongs to a library: it is an argument.
unfoldable pub make_backend : Bytes → Backend
make_backend zero_hash = record {
  objects = [];
  revision = 0;
  id = zero_hash;
  merkle_root = [];
  header = empty_header;
}

unfoldable pub put : Bytes → Bytes → Backend → Backend
put k v b = record b { objects = StdMap.insert_or_assign k v b.objects }

unfoldable pub get : Backend → Bytes → Option Bytes
get b k = StdMap.lookup k b.objects

unfoldable pub erase : Bytes → Backend → Backend
erase k b = record b { objects = StdMap.erase k b.objects }

unfoldable pub clear : Backend → Backend
clear b = record b { objects = [] }

unfoldable pub size : Backend → ℕ
size b = length b.objects
