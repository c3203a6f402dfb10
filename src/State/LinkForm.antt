-- ===== src/State/LinkForm.antt =====
-- web/app.js, the object that `linkPayloadFromForm` makes of the form of a link.
use shortq.Prelude.{List, Text, Bool, Option}
use shortq.State.Platform.{Double}

-- A JSON value, by the text that `JSON.stringify` gives it.
pub record Json : Type 0 where
  pub text : Text

-- An optional key is `none` where it is absent. `extras` are the keys that are copied from the
-- form if it has them, and the two flags are either `true` or absent.
pub record LinkPayload : Type 0 where
  pub url : Text
  pub title : Text
  pub visibility : Text
  pub redirect_code : Double
  pub forward_query : Bool
  pub slug : Option Text
  pub extras : List (Text × Text)
  pub expires_at : Option Text
  pub max_clicks : Option Double
  pub clear_max_clicks : Bool
  pub tags : List Text
  pub geo_targets : Json
  pub password : Option Text
  pub clear_password : Bool
