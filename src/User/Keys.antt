-- ===== src/User/Keys.antt =====
-- A user's keys, written as JSON and read back.
use pandanite_node.Common.{◌^◌, ◌<◌, ◌≡◌}
use pandanite_node.Common.State.{ok}
use pandanite_node.Crypto.Hex.RoundTrip.{string_to_public_key-array, string_to_private_key-array}
use pandanite_node.Json.{Json, IsLawful}
use pandanite_node.User.{User, user_to_json, user_from_json}

-- The keys that toJson has written are read back; they have their sizes, and the values of the JSON
-- library meet its documentation.
pub user_from_json-user_to_json :
    (json : Json) (u : User)
    → IsLawful json
    → u.public_key < 256 ^ 32
    → u.private_key < 256 ^ 64
    → user_from_json json (user_to_json json u) ≡ ok u
unfolding user_from_json user_to_json
user_from_json-user_to_json json u laws public_size private_size = simp (
  laws.at-set,
  laws.to_text-text,
  string_to_public_key-array u.public_key public_size,
  string_to_private_key-array u.private_key private_size,
)
