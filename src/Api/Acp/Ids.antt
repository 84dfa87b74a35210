-- ===== src/Api/Acp/Ids.antt =====
-- Round trips of the ids in crates/orchestrator-api/src/acp_mapping.rs.
use Prim.Native.String.{String, ◌++◌}
use text.Mathlib.TextPositions.{starts_with-append, slice-append_right, len-append}
use commerce_orchestrator_ap.Prelude.{◌≡◌, refl, some}
use commerce_orchestrator_ap.Prelude.Texts.{strip_prefix}
use commerce_orchestrator_ap.Core.Contract.{Uuid, CartProjection}
use commerce_orchestrator_ap.Runtime.Result.{ok}
use commerce_orchestrator_ap.Api.Acp.{
  UuidCrate, with_prefix, parse_prefixed, cart_id_to_acp_session_id, parse_acp_session_id,
  cart_id_to_acp_cart_id, parse_acp_cart_id, projection_to_acp_cart, projection_to_acp_session,
}

strip_prefix-append : (p s : String) → strip_prefix p (p ++ s) ≡ some s
unfolding strip_prefix
strip_prefix-append p s = rw (starts_with-append p s, len-append p s, slice-append_right p s) refl

module _ (uuid : UuidCrate)
    (reads_back : (u : Uuid) → uuid.from_str (uuid.to_string u) ≡ ok u) where
  parse-prefixed :
      (prefix message : String) (u : Uuid)
      → parse_prefixed uuid prefix message (with_prefix uuid prefix u) ≡ ok u
  parse-prefixed prefix message u =
      rw (strip_prefix-append prefix (uuid.to_string u), reads_back u) refl

  -- Where the uuid crate reads back the text that it writes, the id in a session's response is read
  -- as the cart that the session stands for, and so is the id in a cart's response.
  pub projection-parse_id :
      (p : CartProjection)
      → (parse_acp_session_id uuid (projection_to_acp_session uuid p).id ≡ ok p.cart_id)
        × (parse_acp_cart_id uuid (projection_to_acp_cart uuid p).id ≡ ok p.cart_id)
  unfolding parse_acp_session_id parse_acp_cart_id cart_id_to_acp_session_id cart_id_to_acp_cart_id
      projection_to_acp_session projection_to_acp_cart
  projection-parse_id p = (parse-prefixed "cs_" _ p.cart_id, parse-prefixed "cart_" _ p.cart_id)
