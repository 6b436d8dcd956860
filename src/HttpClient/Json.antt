-- ===== src/HttpClient/Json.antt =====
-- The calls of pkg/httpclient/httpclient.go that decode the answer as JSON.
use go_admin.Common.{
  Bool, Option, none, some, [], ◌∷◌, ◌++◌, Bytes, ◌||◌, ltb, leb, if◌then◌else◌, text_eq, nat_eq,
}
use go_admin.Outcome.{Error}
use go_admin.HttpClient.Client.{Client}
use go_admin.HttpClient.Request.{
  Response, Body, status_not_ok, empty_response_body, json_unmarshal, handed_on, Result, done,
  failed, Library, Network, Run, closed_returned, get, post, put, delete,
}

module _ (lib : Library) where
  -- handleJSONResponse; `wanted` is whether there is a value to fill, and the result is the text that
  -- it was filled from.
  abbrev unmarshalled : Bytes → Option Error → Result (Option Bytes)
  unmarshalled b none = done (some b)
  unmarshalled b (some e) = failed (json_unmarshal e b)

  abbrev parsed : Bool → Bytes → Result (Option Bytes)
  parsed wanted [] = if wanted then failed empty_response_body else done none
  parsed wanted (b ∷ bs) = unmarshalled (b ∷ bs) (lib.unmarshal wanted (b ∷ bs))

  abbrev read_body : Bool → Bytes → Option Error → Result (Option Bytes)
  read_body wanted b (some e) = failed (handed_on e)
  read_body wanted b none = parsed wanted b

  unfoldable pub handle_json_response : Response → Bool → Result (Option Bytes)
  handle_json_response r wanted =
      if ltb r.status_code 200 || leb 300 r.status_code
      then failed (status_not_ok r.status_code r.body)
      else read_body wanted r.body r.body_error

  -- decodeJSON: the body is closed behind it.
  unfoldable pub decode_json : Run Response → Bool → Run (Option Bytes)
  unfolding handle_json_response
  decode_json (failed e, es) wanted = (failed e, es)
  decode_json (done r, es) wanted = (handle_json_response r wanted, es ++ (closed_returned ∷ []))

  -- GetJSON, PostJSON, PutJSON, DeleteJSON
  unfoldable pub get_json : Network → Client → Bytes → Option Bytes → Bool → Run (Option Bytes)
  unfolding get decode_json
  get_json net c path params wanted = decode_json (get lib net c path params) wanted

  unfoldable pub post_json : Network → Client → Bytes → Body → Bool → Run (Option Bytes)
  unfolding post decode_json
  post_json net c path body wanted = decode_json (post lib net c path body) wanted

  unfoldable pub put_json : Network → Client → Bytes → Body → Bool → Run (Option Bytes)
  unfolding put decode_json
  put_json net c path body wanted = decode_json (put lib net c path body) wanted

  unfoldable pub delete_json : Network → Client → Bytes → Bool → Run (Option Bytes)
  unfolding delete decode_json
  delete_json net c path wanted = decode_json (delete lib net c path) wanted
