-- ===== src/Macros/Bodies.antt =====
-- The text of a call, as the backend makes it from the arguments' bytes.
use rapidlog.Prelude.{
  ℕ, suc, ◌+◌, ◌^◌, ◌%◌, ◌≤◌, ◌<◌, ◌≡◌, refl, ap, ap₂, ◌∙◌, sym, List, [], ◌∷◌, ◌++◌, none, some,
  ok, drop, length, arith, Text, ◌⊎◌, inl, inr,
}
use rapidlog.Message.{ArchivedHeader, decode}
use rapidlog.Metadata
use rapidlog.Metadata.{Metadata}
use rapidlog.Body.Defs.{FloatDisplay, format_body}
use rapidlog.Body.Template.{
  Template, IsTemplate, printed, filled, format_body_lem, format_body-no_args,
}
use rapidlog.Macros.Defs.{Argument, CallSite, meta, init_site, schemas}
use rapidlog.Macros.Arguments

-- The lock of the schemas is empty, or it holds this call's schemas.
abbrev pub IsSite : List Argument → CallSite → Type 0
IsSite args site =
    (site.schema_bytes ≡ none) ⊎ (site.schema_bytes ≡ some (length args % 2 ^ 8 ∷ schemas args))

pub init_site-schemas :
    (args : List Argument) (site : CallSite)
    → IsSite args site
    → (meta (init_site args site)).schema_provider ≡ length args % 2 ^ 8 ∷ schemas args
unfolding init_site meta Metadata.new
init_site-schemas args site (inl e) = rw e refl
init_site-schemas args site (inr e) = rw e refl

-- The text of a call. Without arguments the braces stay.
unfoldable pub call_text : Template → List Text → Text
call_text t [] = printed t
call_text t (x ∷ texts) = filled t (x ∷ texts)

call_text-filled :
    (t : Template) (texts : List Text) → 1 ≤ length texts → call_text t texts ≡ filled t texts
unfolding call_text
call_text-filled t [] h = absurd (omega arith)
call_text-filled t (x ∷ texts) h = refl

length-arg_texts :
    (floats : FloatDisplay) (m : Metadata) (idx : ℕ) (args : List Argument)
    (h : Arguments.AreLoggable args)
    → length (Arguments.arg_texts floats m idx args h) ≡ length args
length-arg_texts floats m idx [] h = refl
length-arg_texts floats m idx (a ∷ args) (s, h) =
    ap suc (length-arg_texts floats m (idx + 1) args h)

-- What the backend finds in a message: its header, and the text of its body.
pub record IsLogged (floats : FloatDisplay) (m : Metadata) (h : ArchivedHeader) (text : Text)
    (msg : List ℕ) : Type 0 where
  pub decoded : decode msg ≡ ok (some h)
  pub body : format_body floats m (drop 32 msg) ≡ ok text

module _ (floats : FloatDisplay) where
  pub body_lem :
      (t : Template) (args : List Argument) (h : Arguments.AreLoggable args) (site : CallSite)
      (junk : List ℕ)
      → IsTemplate t
      → site.format_str ≡ printed t
      → IsSite args site
      → length args < 256
      → let m = meta (init_site args site) in
        format_body floats m (Arguments.arg_bytes args h ++ junk)
        ≡ ok (call_text t (Arguments.arg_texts floats m 0 args h))
  unfolding call_text init_site meta Metadata.new schemas
  body_lem t [] h site junk ht ef hs few =
      format_body-no_args floats (meta (init_site [] site)) junk (init_site-schemas [] site hs)
      ∙ ap ok ef
  body_lem t (a ∷ args) h site junk ht ef hs few =
      let m = meta (init_site (a ∷ args) site) in
      let xs = Arguments.shapes floats m 0 (a ∷ args) h in
      let count : length xs ≡ length (a ∷ args) = Arguments.length-shapes floats m 0 (a ∷ args) h in
      let small : length (a ∷ args) % 2 ^ 8 ≡ length xs = omega (arith, count) in
      ap (λ x. format_body floats m (x ++ junk))
        (sym (Arguments.payload_of-shapes floats m 0 (a ∷ args) h))
      ∙ format_body_lem floats m t xs junk (omega (arith, count)) ht ef
          (init_site-schemas (a ∷ args) site hs
            ∙ ap₂ (λ n x. n ∷ x) small (sym (Arguments.schemas_of-shapes floats m 0 (a ∷ args) h)))
          (Arguments.shapes-AreShapes floats m 0 (a ∷ args) h)
      ∙ ap (λ x. ok (filled t x)) (Arguments.texts_of-shapes floats m 0 (a ∷ args) h)
