-- ===== src/Tests/Operations.antt =====
-- Tests of the handlers that ask before they change something.
use shortq.Prelude.{
  List, Text, none, some, [], ◌∷◌, ◌≡◌, refl, codes, true, false, text_eq, includes, occurs_in,
}
use shortq.State.{User, tenant_form, App, null, object, response}
use shortq.State.Monad.{Env, ok, throw, value}
use shortq.Api.{api, show_msg, show_thrown}
use shortq.Workspace.{load_links, load_stats}
use shortq.Workspace.Frame.{frame}
use shortq.Operations.{
  escaped, remove_view, forget, delete_request, link_dialogue, del_link, access_dialogue,
  access_request, slug_of,
}
use shortq.Operations.Forget.{confirm, pressed_confirm, del_link-forget}
use shortq.Workspace.Admin.{without, set_param}
use shortq.Operations.Create.{customer_payload}
use shortq.Tests.Samples.{ann, signed_in, refusing, fixed_date, plain_numbers, january, evil_link}

-- A server that does all that it is asked for.
abbrev accepting : Env
accepting = record {
  answer = λ q sent. response 204 [] none [] (codes "No Content");
  locale_date = fixed_date;
  stringify = λ b. [];
  encode = λ q. [];
  numbers = plain_numbers;
  calendar = january;
  iso = some;
  parse_json = λ t. some (record { text = t });
  kept = λ k t. t;
  picked = λ k. true;
  now = codes "0";
}

-- The home view and the audit pane have been loaded.
abbrev visited : App
visited = record signed_in {
  loaded_views = codes "admin/audit" ∷ codes "home" ∷ [];
  link_cache = evil_link ∷ [];
}

operations : Unit {0}
unfolding api occurs_in text_eq includes del_link slug_of
operations = tt

deleted :
    (api (delete_request "/api/v1/links/" 5) accepting (confirm (link_dialogue 5 visited))).0
    ≡ ok null
unfolding operations
deleted = refl

changed :
    (api (access_request 7 true) accepting (confirm (access_dialogue true visited))).0 ≡ ok null
unfolding operations
changed = refl

not_deleted :
    (api (delete_request "/api/v1/links/" 5) refusing (confirm (link_dialogue 5 visited))).0
    ≡ throw (value (object (codes "forbidden") []))
unfolding operations
not_deleted = refl

del_link-forget_example :
    ((del_link pressed_confirm 5 accepting visited).0 ≡ ok tt)
    × (includes (del_link pressed_confirm 5 accepting visited).1.loaded_views (codes "home")
        ≡ false)
    × (frame (del_link pressed_confirm 5 accepting visited).1
        ≡ frame (forget (codes "home") visited))
del_link-forget_example = del_link-forget 5 accepting visited null deleted

-- After a dialogue that was confirmed, Esc in the next one deletes the link all the same; without it, nothing is sent.
escape_deletes :
    includes
      (del_link escaped 5 accepting
        (record visited { return_value = codes "confirm" })).1.loaded_views
      (codes "home")
    ≡ false
unfolding operations show_msg load_links load_stats show_thrown remove_view
escape_deletes = refl

escape_declines : (del_link escaped 5 accepting visited).1.sent ≡ visited.sent
unfolding operations
escape_declines = refl

-- The admin of department 1, and a form that asks for another one.
abbrev admin_of_one : User
admin_of_one = record ann { role = codes "tenant" }

abbrev other_department : List (Text × Text)
other_department =
    (codes "email", codes "new@alvaauto.com")
    ∷ (codes "role", codes "superadmin")
    ∷ (codes "tenant_id", codes "2")
    ∷ []

asked_for_own :
    customer_payload plain_numbers admin_of_one other_department
    ≡ tenant_form
        ((codes "email", codes "new@alvaauto.com") ∷ (codes "role", codes "customer") ∷ [])
        (some (record { bits = 1 }))
unfolding customer_payload without set_param text_eq
asked_for_own = refl

is_tenant_admin : text_eq admin_of_one.role (codes "tenant") ≡ true
unfolding text_eq
is_tenant_admin = refl
