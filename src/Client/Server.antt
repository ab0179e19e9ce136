-- ===== src/Client/Server.antt =====
-- A small server, and a client with a cached ticket, for the tests.
use seam_sdk.Prelude.{ℕ, suc, [], ◌∷◌, bytes_eq, some, ok}
use seam_sdk.Bytes.{Bytes, Text}
use seam_sdk.Calls.{returned, Grant, Outside, Client}
use seam_sdk.Keys.{Ed25519, aid_from_pubkey}

abbrev pub toy : Ed25519
toy = record {
  load_seed = λ seed. ok seed;
  load_public = λ key. ok key;
  public_key = λ k. k;
  sign = λ k m. k;
  verify = λ k s m. bytes_eq s k;
}

abbrev pub digest : Bytes → Bytes
digest b = []

abbrev pub grant_of : ℕ → Grant
grant_of w = record { ticket = w ∷ []; expires_at_ms = 1000 }

-- The clock stands at 5, and each admission grants another ticket until 1000.
abbrev pub server : Outside ℕ
server = record { now_ms = λ w. (5, w); admit = λ seed w. (returned (grant_of w), suc w) }

abbrev pub seed : Bytes
seed = 7 ∷ []

abbrev pub rejected : Bytes
rejected = 1 ∷ 2 ∷ []

abbrev pub aid : Text
aid = aid_from_pubkey seed

abbrev pub client : Client ℕ
client = record {
  outside = 0;
  tickets = λ aid. record { ticket = some rejected; refresh_at_ms = 100 };
  log = [];
}
