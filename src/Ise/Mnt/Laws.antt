-- ===== src/Ise/Mnt/Laws.antt =====
-- What `walk` finds: under each key the first value of the document that is no container and not None.
use cisco_ise_mcp.Prelude.{
  Option, ap, arith, fun_ext, if◌then◌else◌, none, refl, some, sym, ◌∙◌, ◌≡◌,
}
use cisco_ise_mcp.Ise.Mnt.{add_flat, set_field, summarize_session, walk, walk_fields, walk_items}
use cisco_ise_mcp.Ise.Models.{SessionSummary}
use cisco_ise_mcp.Text.{Text, lit, ◌==◌}
use cisco_ise_mcp.Text.Laws.{==_iff}
use cisco_ise_mcp.Value.{
  Fields, Items, Value, arr, bool, cons, end, field, float, get_field, int, nil, null, obj,
  or_value, str,
}

abbrev pub or_later : Option Value → Option Value → Option Value
or_later none later = later
or_later (some v) later = some v

-- A value under its key, if that is the key that is asked for.
abbrev pub here : Text → Text → Value → Option Value
here k j null = none
here k j v = if j == k then some v else none

-- The description, in document order.
unfoldable mutual
  pub first_value : Text → Value → Option Value
  first_value k (obj fs) = first_in_fields k fs
  first_value k (arr xs) = first_in_items k xs
  first_value k _ = none

  pub first_in_fields : Text → Fields → Option Value
  first_in_fields k end = none
  first_in_fields k (field j (obj fs) rest) =
      or_later (first_value k (obj fs)) (first_in_fields k rest)
  first_in_fields k (field j (arr xs) rest) =
      or_later (first_value k (arr xs)) (first_in_fields k rest)
  first_in_fields k (field j v rest) = or_later (here k j v) (first_in_fields k rest)

  pub first_in_items : Text → Items → Option Value
  first_in_items k nil = none
  first_in_items k (cons v xs) = or_later (first_value k v) (first_in_items k xs)

pub get_field-set_field :
    (k j : Text) (v : Value) (fs : Fields)
    → get_field k (set_field j v fs) ≡ (if j == k then some v else get_field k fs)
unfolding get_field set_field
get_field-set_field k j v end = refl
get_field-set_field k j v (field i u fs) =
    ground (arith, ==_iff i j, ==_iff j k, ==_iff i k, get_field-set_field k j v fs)

or_later-none : (a : Option Value) → or_later a none ≡ a
or_later-none none = refl
or_later-none (some v) = refl

or_later_assoc : (a b c : Option Value) → or_later (or_later a b) c ≡ or_later a (or_later b c)
or_later_assoc none b c = refl
or_later_assoc (some v) b c = refl

-- A key that the dict has not keeps its first value.
get_field-kept :
    (k j : Text) (v : Value) (flat : Fields) (found : Option Value)
    → get_field j flat ≡ found
    → get_field k (elim found [ none ↦ set_field j v flat | some u ↦ flat ])
      ≡ or_later (get_field k flat) (if j == k then some v else none)
get_field-kept k j v flat none e =
    get_field-set_field k j v flat ∙ ground (arith, ==_iff j k, or_later-none (get_field k flat))
get_field-kept k j v flat (some u) e = ground (arith, ==_iff j k, or_later-none (get_field k flat))

get_field-add_flat :
    (k j : Text) (v : Value) (flat : Fields)
    → get_field k (add_flat j v flat) ≡ or_later (get_field k flat) (here k j v)
unfolding add_flat
get_field-add_flat k j null flat = sym (or_later-none (get_field k flat))
get_field-add_flat k j (bool b) flat = get_field-kept k j (bool b) flat (get_field j flat) refl
get_field-add_flat k j (int n) flat = get_field-kept k j (int n) flat (get_field j flat) refl
get_field-add_flat k j (float m e) flat =
    get_field-kept k j (float m e) flat (get_field j flat) refl
get_field-add_flat k j (str s) flat = get_field-kept k j (str s) flat (get_field j flat) refl
get_field-add_flat k j (arr xs) flat = get_field-kept k j (arr xs) flat (get_field j flat) refl
get_field-add_flat k j (obj fs) flat = get_field-kept k j (obj fs) flat (get_field j flat) refl

mutual
  unfolding walk walk_fields walk_items first_value first_in_fields first_in_items

  get_field-walk :
      (k : Text) (v : Value) (flat : Fields)
      → get_field k (walk v flat) ≡ or_later (get_field k flat) (first_value k v)
  get_field-walk k (obj fs) flat = get_field-walk_fields k fs flat
  get_field-walk k (arr xs) flat = get_field-walk_items k xs flat
  get_field-walk k null flat = sym (or_later-none (get_field k flat))
  get_field-walk k (bool b) flat = sym (or_later-none (get_field k flat))
  get_field-walk k (int n) flat = sym (or_later-none (get_field k flat))
  get_field-walk k (float m e) flat = sym (or_later-none (get_field k flat))
  get_field-walk k (str s) flat = sym (or_later-none (get_field k flat))

  get_field-walk_fields :
      (k : Text) (fs : Fields) (flat : Fields)
      → get_field k (walk_fields fs flat) ≡ or_later (get_field k flat) (first_in_fields k fs)
  get_field-walk_fields k end flat = sym (or_later-none (get_field k flat))
  get_field-walk_fields k (field j (obj fs) rest) flat =
      get_field-walk_fields k rest (walk (obj fs) flat)
      ∙ ap (λ a. or_later a (first_in_fields k rest)) (get_field-walk k (obj fs) flat)
      ∙ or_later_assoc (get_field k flat) _ _
  get_field-walk_fields k (field j (arr xs) rest) flat =
      get_field-walk_fields k rest (walk (arr xs) flat)
      ∙ ap (λ a. or_later a (first_in_fields k rest)) (get_field-walk k (arr xs) flat)
      ∙ or_later_assoc (get_field k flat) _ _
  get_field-walk_fields k (field j null rest) flat =
      get_field-walk_fields k rest (add_flat j null flat)
      ∙ ap (λ a. or_later a (first_in_fields k rest)) (get_field-add_flat k j null flat)
      ∙ or_later_assoc (get_field k flat) _ _
  get_field-walk_fields k (field j (bool b) rest) flat =
      get_field-walk_fields k rest (add_flat j (bool b) flat)
      ∙ ap (λ a. or_later a (first_in_fields k rest)) (get_field-add_flat k j (bool b) flat)
      ∙ or_later_assoc (get_field k flat) _ _
  get_field-walk_fields k (field j (int n) rest) flat =
      get_field-walk_fields k rest (add_flat j (int n) flat)
      ∙ ap (λ a. or_later a (first_in_fields k rest)) (get_field-add_flat k j (int n) flat)
      ∙ or_later_assoc (get_field k flat) _ _
  get_field-walk_fields k (field j (float m e) rest) flat =
      get_field-walk_fields k rest (add_flat j (float m e) flat)
      ∙ ap (λ a. or_later a (first_in_fields k rest)) (get_field-add_flat k j (float m e) flat)
      ∙ or_later_assoc (get_field k flat) _ _
  get_field-walk_fields k (field j (str s) rest) flat =
      get_field-walk_fields k rest (add_flat j (str s) flat)
      ∙ ap (λ a. or_later a (first_in_fields k rest)) (get_field-add_flat k j (str s) flat)
      ∙ or_later_assoc (get_field k flat) _ _

  get_field-walk_items :
      (k : Text) (xs : Items) (flat : Fields)
      → get_field k (walk_items xs flat) ≡ or_later (get_field k flat) (first_in_items k xs)
  get_field-walk_items k nil flat = sym (or_later-none (get_field k flat))
  get_field-walk_items k (cons v xs) flat =
      get_field-walk_items k xs (walk v flat)
      ∙ ap (λ a. or_later a (first_in_items k xs)) (get_field-walk k v flat)
      ∙ or_later_assoc (get_field k flat) _ _

abbrev pub value_or_null : Option Value → Value
value_or_null none = null
value_or_null (some v) = v

-- The summary of a session in terms of the values that a document has under its keys.
abbrev pub summary_by : (Text → Value) → SessionSummary
summary_by value = record {
  mac = or_value (value (lit "calling_station_id")) (value (lit "macAddress"));
  ip_address = or_value (value (lit "framed_ip_address")) (value (lit "ipAddress"));
  username = or_value (value (lit "user_name")) (value (lit "userName"));
  nas_ip = or_value (value (lit "nas_ip_address")) (value (lit "nasIpAddress"));
  nas_port = or_value (value (lit "nas_port_id")) (value (lit "nasPortId"));
  authz_profile = or_value (value (lit "authorization_rule")) (value (lit "authProfile"));
  posture_status = value (lit "posture_status");
  security_group = value (lit "security_group");
  state = or_value (value (lit "session_state")) (value (lit "state"));
  server = or_value (value (lit "acs_server")) (value (lit "server"));
}

-- Each field of the summary is taken from the first value, in the order of the document and at any depth,
-- that stands under its key and is neither None nor a container; from that under its second key where the
-- first value is missing or empty; and is None where both are missing.
pub summarize_session-first :
    (parsed : Value)
    → summarize_session parsed ≡ summary_by (λ k. value_or_null (first_value k parsed))
unfolding summarize_session get_field
summarize_session-first parsed =
    ap summary_by (fun_ext (λ k. ap value_or_null (get_field-walk k parsed end)))
