-- ===== src/Macros/Tables.antt =====
-- The string tables of a call: each argument is shown with its own type's table.
use rapidlog.Prelude.{
  ℕ, ◌+◌, ◌≡◌, refl, ap, ap₂, ◌∙◌, sym, List, [], ◌∷◌, ◌++◌, none, some, ◌⊎◌, inl, inr, length,
  length-append, get_elem?-append, append_assoc, arith, Text,
}
use rapidlog.Arg.Format.{Context}
use rapidlog.Metadata
use rapidlog.Metadata.{Metadata}
use rapidlog.Body.Defs.{FloatDisplay, arg_string_tables}
use rapidlog.Body.Template.{arg_context}
use rapidlog.Macros.Defs.{Argument, CallSite, meta, init_site, tables}
use rapidlog.Macros.Arguments.{AreLoggable, arg_texts}

-- The lock of the string tables is empty, or it holds the tables of this call's arguments.
abbrev pub HasTables : List Argument → CallSite → Type 0
HasTables args site = (site.string_tables ≡ none) ⊎ (site.string_tables ≡ some (tables args))

-- The context with an argument's own string table, and no other.
abbrev pub own_context : FloatDisplay → Argument → Context
own_context floats a = record {
  string_tables = a.encoder.string_table a.value ∷ [];
  user_formatters = [];
  display_f32 = floats.display_f32;
  display_f64 = floats.display_f64;
}

-- The texts of the arguments, each with its own string table.
abbrev pub own_texts : FloatDisplay → (args : List Argument) → AreLoggable args → List Text
own_texts floats [] h = []
own_texts floats (a ∷ args) (s, h) =
    s.shown (own_context floats a) a.value ∷ own_texts floats args h

arg_string_tables-append :
    (pre post : List (List ℕ)) (t : List ℕ) (idx : ℕ)
    → idx ≡ length pre
    → arg_string_tables idx (pre ++ (t ∷ post)) ≡ t ∷ []
unfolding arg_string_tables
arg_string_tables-append pre post t idx e =
    rw (get_elem?-append pre post t idx e, arg_string_tables) refl

string_tables_provider-meta :
    (args : List Argument) (site : CallSite)
    → HasTables args site
    → (meta (init_site args site)).string_tables_provider ≡ tables args
unfolding init_site meta Metadata.new
string_tables_provider-meta args site (inl e) = rw e refl
string_tables_provider-meta args site (inr e) = rw e refl

user_formatters_provider-meta :
    (args : List Argument) (site : CallSite)
    → (meta (init_site args site)).user_formatters_provider ≡ []
unfolding init_site meta Metadata.new
user_formatters_provider-meta args site = refl

module _ (floats : FloatDisplay) (m : Metadata) (none_own : m.user_formatters_provider ≡ []) where
  arg_context-own :
      (a : Argument) (pre post : List (List ℕ)) (idx : ℕ)
      → m.string_tables_provider ≡ pre ++ (a.encoder.string_table a.value ∷ post)
      → idx ≡ length pre
      → arg_context floats m idx ≡ own_context floats a
  arg_context-own a pre post idx e at =
      ap₂
        (λ ts us. record {
          string_tables = ts;
          user_formatters = us;
          display_f32 = floats.display_f32;
          display_f64 = floats.display_f64;
        })
        (ap (arg_string_tables idx) e
          ∙ arg_string_tables-append pre post (a.encoder.string_table a.value) idx at)
        none_own

  arg_texts-own_from :
      (args : List Argument) (h : AreLoggable args) (pre : List (List ℕ)) (idx : ℕ)
      → m.string_tables_provider ≡ pre ++ tables args
      → idx ≡ length pre
      → arg_texts floats m idx args h ≡ own_texts floats args h
  unfolding tables
  arg_texts-own_from [] h pre idx e at = refl
  arg_texts-own_from (a ∷ args) (s, h) pre idx e at =
      let t = a.encoder.string_table a.value in
      ap₂ (λ x xs. x ∷ xs)
        (ap (λ c. s.shown c a.value) (arg_context-own a pre (tables args) idx e at))
        (arg_texts-own_from args h (pre ++ (t ∷ [])) (idx + 1)
          (e ∙ sym (append_assoc pre (t ∷ []) (tables args)))
          (omega (arith, length-append pre (t ∷ []))))

-- At a call site whose string tables are its arguments', each argument is shown with its own.
pub arg_texts-own_texts :
    (floats : FloatDisplay) (args : List Argument) (h : AreLoggable args) (site : CallSite)
    → HasTables args site
    → arg_texts floats (meta (init_site args site)) 0 args h ≡ own_texts floats args h
arg_texts-own_texts floats args h site e =
    arg_texts-own_from floats (meta (init_site args site)) (user_formatters_provider-meta args site)
      args h [] 0 (string_tables_provider-meta args site e) refl
