-- ===== src/P2p/Gorpc/Name.antt =====
-- gorpc_codec.cpp: the names of the fields of the messages.
use teleno.Base.{Bytes, [], bytes_key, nat_key, ◌∷◌}

abbrev pub name : Bytes
name = b'N' ∷ b'a' ∷ b'm' ∷ b'e' ∷ []

abbrev pub method : Bytes
method = b'M' ∷ b'e' ∷ b't' ∷ b'h' ∷ b'o' ∷ b'd' ∷ []

abbrev pub parent_id : Bytes
parent_id = b'P' ∷ b'a' ∷ b'r' ∷ b'e' ∷ b'n' ∷ b't' ∷ b'I' ∷ b'D' ∷ []

abbrev pub child_height : Bytes
child_height = b'C' ∷ b'h' ∷ b'i' ∷ b'l' ∷ b'd' ∷ b'H' ∷ b'e' ∷ b'i' ∷ b'g' ∷ b'h' ∷ b't' ∷ []

abbrev pub head_block_id : Bytes
head_block_id = b'H' ∷ b'e' ∷ b'a' ∷ b'd' ∷ b'B' ∷ b'l' ∷ b'o' ∷ b'c' ∷ b'k' ∷ b'I' ∷ b'D' ∷ []

abbrev pub start_block_height : Bytes
start_block_height =
    b'S' ∷ b't' ∷ b'a' ∷ b'r' ∷ b't' ∷ b'B' ∷ b'l' ∷ b'o' ∷ b'c' ∷ b'k' ∷ b'H' ∷ b'e' ∷ b'i' ∷ b'g'
    ∷ b'h' ∷ b't' ∷ []

abbrev pub num_blocks : Bytes
num_blocks = b'N' ∷ b'u' ∷ b'm' ∷ b'B' ∷ b'l' ∷ b'o' ∷ b'c' ∷ b'k' ∷ b's' ∷ []

abbrev pub id : Bytes
id = b'I' ∷ b'D' ∷ []

abbrev pub height : Bytes
height = b'H' ∷ b'e' ∷ b'i' ∷ b'g' ∷ b'h' ∷ b't' ∷ []

abbrev pub blocks : Bytes
blocks = b'B' ∷ b'l' ∷ b'o' ∷ b'c' ∷ b'k' ∷ b's' ∷ []

abbrev pub service : Bytes
service = b'S' ∷ b'e' ∷ b'r' ∷ b'v' ∷ b'i' ∷ b'c' ∷ b'e' ∷ []

abbrev pub error : Bytes
error = b'E' ∷ b'r' ∷ b'r' ∷ b'o' ∷ b'r' ∷ []

abbrev pub err_type : Bytes
err_type = b'E' ∷ b'r' ∷ b'r' ∷ b'T' ∷ b'y' ∷ b'p' ∷ b'e' ∷ []
