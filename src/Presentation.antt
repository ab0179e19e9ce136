-- ===== src/Presentation.antt =====
-- `derived_uuid`, `pop_message_id` and `build_presentation` of `python/seam_sdk/crypto.py`: what an agent
-- presents when it is admitted.
pub mod Derived
mod Runs
use seam_sdk.Prelude.{
  ℕ, zero, suc, ◌+◌, ◌-◌, ◌%◌, ◌/◌, List, [], ◌∷◌, ◌++◌, length, codes, ◌==◌, if◌then◌else◌, Result,
  ok, err, value_error, ◌>>=◌,
}
use seam_sdk.Prelude.Int.{pos}
use seam_sdk.Bytes.{Bytes, Text, encode}
use seam_sdk.Base64.{b64url_nopad, b64url_decode}
use seam_sdk.Keys.{Ed25519, aid_from_pubkey}
use seam_sdk.Tct.{encode_ascii}
use seam_sdk.Client.{hexdigest}
use seam_sdk.Decision.{decimal}

-- `h[:n]` and `h[n:]`.
unfoldable pub take : ℕ → Bytes → Bytes
take zero b = []
take (suc n) [] = []
take (suc n) (x ∷ b) = x ∷ take n b

unfoldable pub drop : ℕ → Bytes → Bytes
drop zero b = b
drop (suc n) [] = []
drop (suc n) (x ∷ b) = drop n b

-- `h[i] = f(h[i])`, for an index of `h`.
unfoldable pub change : ℕ → (ℕ → ℕ) → Bytes → Bytes
change i f [] = []
change zero f (x ∷ b) = f x ∷ b
change (suc i) f (x ∷ b) = x ∷ change i f b

-- `(x & 0x0F) | 0x40` and `(x & 0x3F) | 0x80`.
abbrev pub version_4 : ℕ → ℕ
version_4 x = 0x40 + x % 16

abbrev pub variant : ℕ → ℕ
variant x = 0x80 + x % 64

-- A UUID is its sixteen bytes; another number of them is a `ValueError`.
unfoldable pub uuid_of : Bytes → Result Bytes
uuid_of b = if length b == 16 then ok b else err value_error

-- `str` of a UUID.
unfoldable pub uuid_text : Bytes → Text
unfolding take drop
uuid_text u =
    hexdigest (take 4 u)
    ++ b'-' ∷ hexdigest (take 2 (drop 4 u))
    ++ b'-' ∷ hexdigest (take 2 (drop 6 u))
    ++ b'-' ∷ hexdigest (take 2 (drop 8 u))
    ++ b'-' ∷ hexdigest (drop 10 u)

abbrev pub pop_message_id_tag : Text
pop_message_id_tag = codes "seam-pop-mid-v1"

abbrev pub proof_domain : Bytes
proof_domain = codes "aitp-pinned-key-v1" ++ 0 ∷ []

-- The presentation, as the fields that differ; the descriptor's type is always `pinned_key` and its
-- subject the sender.
pub record Presentation : Type 0 where
  pub sender_aid : Text
  pub proof : Text
  pub public_key : Text
  pub message_id : Text
  pub timestamp : ℕ
  pub pop_nonce : Text

-- The digest has more than sixteen bytes.
module _ (hash : Bytes → Bytes) where
  unfoldable pub derived_uuid : Text → Bytes → Result Bytes
  unfolding take change uuid_of
  derived_uuid tag input = do
    prefix ← encode_ascii tag
    uuid_of (change 8 variant (change 6 version_4 (take 16 (hash (prefix ++ 0 ∷ input)))))

  unfoldable pub pop_message_id : Text → Result Bytes
  unfolding derived_uuid
  pop_message_id pop_nonce = do
    nonce ← encode_ascii pop_nonce
    derived_uuid pop_message_id_tag nonce

  -- The slots of the signed input, each but the last followed by a zero byte.
  unfoldable pub proof_input : Text → Text → Text → ℕ → Text → Result Bytes
  proof_input sender_aid receiver_aid message_id timestamp pop_nonce = do
    sender ← encode sender_aid
    receiver ← encode receiver_aid
    mid ← encode message_id
    nonce ← b64url_decode pop_nonce
    ok (
        proof_domain
        ++ sender
        ++ 0 ∷ receiver
        ++ 0 ∷ mid
        ++ 0 ∷ decimal (pos timestamp)
        ++ 0 ∷ nonce)

  module _ (ed : Ed25519) where
    unfoldable pub build_presentation : Bytes → Text → Text → ℕ → Result Presentation
    unfolding pop_message_id uuid_text proof_input
    build_presentation agent_seed receiver_aid pop_nonce now_ms = do
      sk ← ed.load_seed agent_seed
      let sender_aid = aid_from_pubkey (ed.public_key sk)
      mid ← pop_message_id pop_nonce
      input ← proof_input sender_aid receiver_aid (uuid_text mid) (now_ms / 1000) pop_nonce
      ok (record {
        sender_aid = sender_aid;
        proof = b64url_nopad (ed.sign sk (hash input));
        public_key = b64url_nopad (ed.public_key sk);
        message_id = uuid_text mid;
        timestamp = now_ms / 1000;
        pop_nonce = pop_nonce;
      })
