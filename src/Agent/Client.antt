-- ===== src/Agent/Client.antt =====
-- internal/agent/client: what one POST of the agent carries. encoding/json and compress/gzip are
-- parameters.
pub mod Accepted
pub mod Responses
pub mod Requests
pub mod Headers
use go_musthave_metrics.Base.{
  ℕ, Bool, true, false, ◌&&◌, ◌||◌, not, Option, none, some, List, [], ◌∷◌, ◌++◌, leb, length,
  if◌then◌else◌,
}
use go_musthave_metrics.Base.Text.{Text, codes, has_prefix, contains}
use go_musthave_metrics.Base.Results.{Error, Result, ok, err, ◌>>=◌}
use go_musthave_metrics.Handler.Http.{application_json}
use go_musthave_metrics.Handler.Hash.{sign}

unfoldable pub normalize_url : Text → Text
unfolding has_prefix
normalize_url url =
    let url1 = if has_prefix url (codes ":") then codes "localhost" ++ url else url in
    if not (has_prefix url1 (codes "http://")) && not (has_prefix url1 (codes "https://"))
    then codes "http://" ++ url1
    else url1

unfoldable pub is_network_error : Error → Bool
is_network_error e =
    contains e (codes "connection refused")
    || contains e (codes "timeout")
    || contains e (codes "network")

-- `signer` is the key of the signer, `none` for nil.
pub record RequestProcessor : Type 0 where
  pub signer : Option Text
  pub use_gzip : Bool
  pub min_size_to_compress : ℕ

-- `NewRequestProcessor(signer, true, gzip.DefaultCompression)`, whose level is in range.
abbrev pub new_request_processor : Option Text → RequestProcessor
new_request_processor signer = record {
  signer = signer;
  use_gzip = true;
  min_size_to_compress = 32;
}

pub should_compress : RequestProcessor → Text → Bool
should_compress rp body = rp.use_gzip && leb rp.min_size_to_compress (length body)

-- What goes out: the body and the headers that `setRequestHeaders` sets for it.
pub record Outgoing : Type 0 where
  pub body : Text
  pub content_type : Text
  pub content_encoding : Text
  pub hash_sha256 : Text

module _ (sha256_hex : Text → Text) (gzip : Text → Result Text) where
  -- `Compress` of compressor_service_impl.go; nothing is compressed to nothing.
  unfoldable pub compress : Text → Result Text
  compress [] = ok []
  compress (c ∷ s) = gzip (c ∷ s)

  -- `ProcessRequest` on the marshalled body, and `setRequestHeaders`.
  unfoldable pub process_request : RequestProcessor → Text → Result Outgoing
  unfolding compress should_compress sign
  process_request rp json_data =
      let hash_value : Text = elim rp.signer [
        | none ↦ []
        | some key ↦ sign sha256_hex key json_data
      ] in
      if should_compress rp json_data
      then elim (compress json_data) [
        | err e ↦ err (codes "compressing request body failed: " ++ e)
        | ok z ↦ ok (record {
          body = z;
          content_type = application_json;
          content_encoding = codes "gzip";
          hash_sha256 = hash_value;
        })
      ]
      else ok (record {
        body = json_data;
        content_type = application_json;
        content_encoding = [];
        hash_sha256 = hash_value;
      })
