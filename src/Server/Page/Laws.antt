-- ===== src/Server/Page/Laws.antt =====
-- oauth.py: the login page, and what the parameters of a request can do to it
use cisco_ise_mcp.Prelude.{
  Bool, String, [], all, ap, arith, eqb, if◌then◌else◌, is_empty, not, refl, sym, true, ℕ, ◌++◌,
  ◌||◌, ◌∙◌, ◌∷◌, ◌≡◌,
}
use cisco_ise_mcp.Dict.{Dict}
use cisco_ise_mcp.Server.{get_text}
use cisco_ise_mcp.Server.Page.{
  error_paragraph, escape, escape_char, form_head, hidden, login_page, page_card, page_end,
  page_head, page_style,
}
use cisco_ise_mcp.Text.{Text, lit}

-- A character that neither ends an attribute nor opens or closes a tag.
abbrev pub is_inert : ℕ → Bool
is_inert c = not (eqb c 34 || eqb c 39 || eqb c b'<' || eqb c b'>')

all-++ : (p : ℕ → Bool) (xs ys : Text) → all p xs ≡ true → all p ys ≡ true → all p (xs ++ ys) ≡ true
all-++ p [] ys h k = k
all-++ p (c ∷ xs) ys h k = ground (arith, all-++ p xs ys)

escape_char-inert : (c : ℕ) → all is_inert (escape_char c) ≡ true
unfolding escape lit
escape_char-inert c = ground arith

-- No escaped text has a quote or an angle bracket.
escape-inert : (s : Text) → all is_inert (escape s) ≡ true
unfolding escape
escape-inert [] = refl
escape-inert (c ∷ s) =
    all-++ is_inert (escape_char c) (escape s) (escape_char-inert c) (escape-inert s)

-- The quotes and angle brackets of a text, in their order.
abbrev pub marks : Text → Text
marks [] = []
marks (c ∷ s) = if is_inert c then marks s else c ∷ marks s

marks-++ : (xs ys : Text) → marks (xs ++ ys) ≡ marks xs ++ marks ys
marks-++ [] ys = refl
marks-++ (c ∷ xs) ys = ground (arith, marks-++ xs ys)

marks-inert : (s : Text) → all is_inert s ≡ true → marks s ≡ []
marks-inert [] h = refl
marks-inert (c ∷ s) h = ground (arith, marks-inert s (ground arith))

-- Two texts with the same marks.
record SameMarks (xs ys : Text) : Type 0 where
  same : marks xs ≡ marks ys

as_is : (xs : Text) → SameMarks xs xs
as_is xs = record { same = refl }

infixr 5 ◌then◌
◌then◌ :
    {xs xs' ys ys' : Text} → SameMarks xs xs' → SameMarks ys ys' → SameMarks (xs ++ ys) (xs' ++ ys')
◌then◌ {xs} {xs'} {ys} {ys'} h k = record {
  same =
      marks-++ xs ys
      ∙ ap (λ m. m ++ marks ys) h.same
      ∙ ap (λ m. marks xs' ++ m) k.same
      ∙ sym (marks-++ xs' ys');
}

-- A text that is shown in escaped form does not matter to the marks.
escaped : (s s' : Text) → SameMarks (escape s) (escape s')
escaped s s' = record {
  same = marks-inert (escape s) (escape-inert s) ∙ sym (marks-inert (escape s') (escape-inert s'));
}

field_of : (p p' : Dict Text) (name : String) → SameMarks (hidden p name) (hidden p' name)
field_of p p' name =
    as_is _
    then as_is (lit name)
    then as_is _
    then escaped (get_text p (lit name)) (get_text p' (lit name))
    then as_is _

error_of :
    (e e' : Text) → is_empty e ≡ is_empty e' → SameMarks (error_paragraph e) (error_paragraph e')
error_of [] [] h = as_is []
error_of [] (c ∷ s) h = cc
error_of (c ∷ s) [] h = cc
error_of (c ∷ s) (d ∷ t) h = as_is _ then escaped (c ∷ s) (d ∷ t) then as_is _

-- The login page has the same quotes and angle brackets, in the same order, whatever the parameters of the
-- request and the text of the error are, if only both pages show an error or neither does: no parameter
-- closes the attribute that it is shown in, or opens a tag.
pub login_page-marks :
    (params params' : Dict Text) (error error' : Text)
    → is_empty error ≡ is_empty error'
    → marks (login_page params error) ≡ marks (login_page params' error')
unfolding login_page
login_page-marks params params' error error' h =
    let shown : SameMarks (login_page params error) (login_page params' error') =
      as_is page_head
      then as_is page_style
      then as_is page_card
      then error_of error error' h
      then as_is form_head
      then field_of params params' "client_id"
      then field_of params params' "redirect_uri"
      then field_of params params' "scope"
      then field_of params params' "state"
      then field_of params params' "code_challenge"
      then as_is page_end in
    shown.same
