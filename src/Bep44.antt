-- ===== src/Bep44.antt =====
-- dhtcore/src/Bep44.cpp: what BEP 44 hashes and signs. Sha-1 and Monocypher's check of a signature
-- are `Crypto`.
use dhtinspector.Common.{
  ℕ, Bool, false, not, Option, none, some, List, [], ◌∷◌, ◌++◌, ◌==◌, ◌||◌, if◌then◌else◌, length,
}
use dhtinspector.Common.Ints.{ℤ}
use dhtinspector.Bencode.Encoder.{signed_number}
use dhtinspector.Bencode.Decimal.{number}
use dhtinspector.NodeId.{NodeId, from_bytes}

pub record Crypto : Type 0 where
  pub sha1 : List ℕ → List ℕ
  -- crypto_ed25519_check of a signature, a public key and a message, where 0 is true.
  pub ed25519_check : List ℕ → List ℕ → List ℕ → Bool

-- The dereferenced fromBytes; for `none` the code has no value.
hashed_id : Option NodeId → NodeId
hashed_id (some id) = id
hashed_id none = []

unfoldable pub immutable_target : Crypto → List ℕ → NodeId
unfolding hashed_id
immutable_target crypto value = hashed_id (from_bytes (crypto.sha1 value))

unfoldable pub mutable_target : Crypto → List ℕ → List ℕ → NodeId
unfolding hashed_id
mutable_target crypto public_key salt = hashed_id (from_bytes (crypto.sha1 (public_key ++ salt)))

salt_prefix : List ℕ → List ℕ
salt_prefix [] = []
salt_prefix (c ∷ cs) =
    (b'4' ∷ b':' ∷ b's' ∷ b'a' ∷ b'l' ∷ b't' ∷ []) ++ (number (length (c ∷ cs)) ++ (58 ∷ c ∷ cs))

unfoldable pub signing_buffer : List ℕ → ℤ → List ℕ → List ℕ
unfolding salt_prefix
signing_buffer salt sequence value =
    salt_prefix salt
    ++ ((b'3' ∷ b':' ∷ b's' ∷ b'e' ∷ b'q' ∷ b'i' ∷ [])
        ++ (signed_number sequence ++ ((b'e' ∷ b'1' ∷ b':' ∷ b'v' ∷ []) ++ value)))

unfoldable pub verify : Crypto → List ℕ → List ℕ → List ℕ → Bool
verify crypto signature message public_key =
    if not (length signature == 64) || not (length public_key == 32)
    then false
    else crypto.ed25519_check signature public_key message
