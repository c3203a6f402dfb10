-- ===== src/Operations/Created.antt =====
-- What the handlers of `Operations.Create` leave, and what they may ask for.
use shortq.Prelude.{
  ◌≡◌, refl, ◌∙◌, ap, List, [], ◌∷◌, Text, codes, true, false, ◌==◌, text_eq, text_eq_refl,
  text_eq_iff, Option, some, Bool-cases, inl, inr,
}
use shortq.State.{App, User, Body, null, new_key, Request, tenant_form}
use shortq.State.Platform.{Numbers}
use shortq.State.Monad.{Env, M, Result, ok, try_catch, pure, modify, both, ◌>>=◌, ◌>>◌}
use shortq.Api.{api, show_thrown, show_msg}
use shortq.Pager.{reset_user_pagination}
use shortq.Workspace.{load_stats}
use shortq.Workspace.Admin.{
  without, set_param, load_tenants, load_domains, load_customers, setup_customer_form,
}
use shortq.Workspace.Frame.{
  frame, Frames, bind-Frames, both-Frames, api_bind-Frames, load_keys-Frames, load_stats-Frames,
}
use shortq.Workspace.Admin.Frame.{
  load_tenants-Frames, load_domains-Frames, load_customers-Frames, setup_customer_form-Frames,
}
use shortq.Links.FormPayload.{entry, has_entry}
use shortq.Operations.Try.{caught_shown}
use shortq.Operations.Create.{
  key_request, key_text, key_created, create_key, tenant_request, tenant_created, reload_tenants,
  create_tenant, domain_request, domain_created, domain_payload, create_domain_by, create_domain,
  customer_request, customer_created, customer_payload, reload_customers, create_customer_by,
  create_customer,
}

-- A handler that ends, with what routing sets as it was.
abbrev pub EndsAsBefore : App → Result (Unit {0}) × App → Type 0
EndsAsBefore s r = (r.0 ≡ ok tt) × (frame r.1 ≡ frame s)

asks :
    (q : Request) (k : Body → M (Unit {0})) (env : Env) (s : App)
    → ((b : Body) → Frames (k b))
    → EndsAsBefore s (try_catch (api q >>= k) show_thrown env s)
asks q k env s keeps =
    let (ends, same) = caught_shown env ((api q >>= k) env s) in
    (ends, same ∙ api_bind-Frames q k keeps env s)

key_created-Frames : (b : Body) → Frames (key_created b)
unfolding key_created key_text
key_created-Frames null env s = refl
key_created-Frames (new_key key) env s = load_keys-Frames env _
key_created-Frames _ env s = load_keys-Frames env _

reload_tenants-Frames : Frames reload_tenants
reload_tenants-Frames =
    bind-Frames (both load_tenants load_stats) (λ _. setup_customer_form >> load_domains)
      (both-Frames load_tenants load_stats load_tenants-Frames load_stats-Frames)
      (λ _.
        bind-Frames setup_customer_form (λ _. load_domains) setup_customer_form-Frames
          (λ _. load_domains-Frames))

reload_customers-Frames : Frames reload_customers
reload_customers-Frames =
    bind-Frames (both load_customers load_stats) (λ _. pure tt)
      (both-Frames load_customers load_stats load_customers-Frames load_stats-Frames)
      (λ _ env s. refl)

tenant_created-Frames : (b : Body) → Frames (tenant_created b)
unfolding show_msg
tenant_created-Frames b env s = reload_tenants-Frames env _

domain_created-Frames : (b : Body) → Frames (domain_created b)
unfolding show_msg
domain_created-Frames b env s = load_domains-Frames env _

after_setup : Frames (setup_customer_form >> (modify reset_user_pagination >> reload_customers))
unfolding reset_user_pagination
after_setup =
    bind-Frames setup_customer_form (λ _. modify reset_user_pagination >> reload_customers)
      setup_customer_form-Frames (λ _ env s. reload_customers-Frames env (reset_user_pagination s))

customer_created-Frames : (b : Body) → Frames (customer_created b)
unfolding show_msg
customer_created-Frames b env s = after_setup env _

domain_by :
    (u : User) (env : Env) (s : App) (o : Option User)
    → o ≡ some u
    → EndsAsBefore s (create_domain_by o env s)
unfolding create_domain_by
domain_by u env s o signed_in =
    rw signed_in (asks (domain_request env u s) domain_created env s domain_created-Frames)

customer_by :
    (u : User) (env : Env) (s : App) (o : Option User)
    → o ≡ some u
    → EndsAsBefore s (create_customer_by o env s)
unfolding create_customer_by
customer_by u env s o signed_in =
    rw signed_in (asks (customer_request env u s) customer_created env s customer_created-Frames)

-- Whatever the server answers, the four handlers that create a key, a department, a domain and a
-- user end without throwing, for a signed-in user, and change nothing that routing sets.
pub creations_end :
    (u : User) (env : Env) (s : App)
    → s.current_user ≡ some u
    → EndsAsBefore s (create_key env s)
      × EndsAsBefore s (create_tenant env s)
      × EndsAsBefore s (create_domain env s)
      × EndsAsBefore s (create_customer env s)
unfolding create_key create_tenant create_domain create_customer
creations_end u env s signed_in = (
  asks (key_request s) key_created env s key_created-Frames,
  asks (tenant_request s) tenant_created env s tenant_created-Frames,
  domain_by u env s s.current_user signed_in,
  customer_by u env s s.current_user signed_in,
)

has_entry-without : (key : Text) (es : List (Text × Text)) → has_entry (without key es) key ≡ false
unfolding has_entry without
has_entry-without key [] = refl
has_entry-without key ((k, v) ∷ es) = elim (Bool-cases (text_eq k key)) [
  | inl same ↦ rw same (has_entry-without key es)
  | inr other ↦ rw (other, other) (has_entry-without key es)
]

entry-set_param : (key v : Text) (es : List (Text × Text)) → entry (set_param key v es) key ≡ v
unfolding entry set_param
entry-set_param key v [] = rw (text_eq_refl key) refl
entry-set_param key v ((k, w) ∷ es) = elim (Bool-cases (text_eq k key)) [
  | inl same ↦ rw (same, text_eq_refl key) refl
  | inr other ↦ rw (other, other) (entry-set_param key v es)
]

entry-without :
    (key other : Text) (es : List (Text × Text))
    → text_eq other key ≡ false
    → entry (without other es) key ≡ entry es key
unfolding entry without
entry-without key other [] h = refl
entry-without key other ((k, v) ∷ es) h = elim (Bool-cases (text_eq k other)) [
  | inl same ↦ rw (same, differs k ((text_eq_iff k other).0 same)) (entry-without key other es h)
  | inr apart ↦ rw (apart, entry-without key other es h) refl
]
  where
    differs : (j : Text) → j ≡ other → text_eq j key ≡ false
    differs j e = ap (λ t. text_eq t key) e ∙ h

-- Whatever the form holds, a department admin whose department is known asks to create a user of
-- that department in the role `customer`, and a domain of that department, and the requests name no
-- other one.
pub tenant_admin_asks :
    (n : Numbers) (u : User) (es : List (Text × Text))
    → text_eq u.role (codes "tenant") ≡ true
    → (u.tenant_id == 0) ≡ false
    → (user domain : List (Text × Text)) × (customer_payload n u es
        ≡ tenant_form user (some (n.of_nat u.tenant_id)))
      × (entry user (codes "role") ≡ codes "customer")
      × (has_entry user (codes "tenant_id") ≡ false)
      × (domain_payload n u es ≡ tenant_form domain (some (n.of_nat u.tenant_id)))
      × (has_entry domain (codes "tenant_id") ≡ false)
unfolding customer_payload domain_payload text_eq
tenant_admin_asks n u es own known = (
  without (codes "tenant_id") (set_param (codes "role") (codes "customer") es),
  without (codes "tenant_id") es,
  rw (own, known) refl,
  entry-without (codes "role") (codes "tenant_id") (set_param (codes "role") (codes "customer") es)
        refl
      ∙ entry-set_param (codes "role") (codes "customer") es,
  has_entry-without (codes "tenant_id") (set_param (codes "role") (codes "customer") es),
  rw own refl,
  has_entry-without (codes "tenant_id") es,
)
