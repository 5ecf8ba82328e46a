-- ===== src/Bell/Lang.antt =====
-- `t` of tabus/lang.py: a sentence of the catalogue of the active language. The catalogues and
-- `str.format` are parameters.
use tabc.Prelude.{Option, coalesce, if◌then◌else◌, none, or_else, some}
use tabc.Text.{Text, text_eq, txt}
use tabc.Bell.Adapters.{Fields}

abbrev pub base_lang : Text
base_lang = txt "en"

-- the active catalogue, the base language, the key, and the template where it does not format
unfoldable pub t :
    (Text → Text → Option Text) → (Text → Fields → Option Text) → Text → Text → Fields → Text
t catalog format lang key fields =
    let tmpl =
      coalesce (catalog lang key)
        (if text_eq lang base_lang then none else catalog base_lang key) in
    elim tmpl [ none ↦ key | some text ↦ or_else (format text fields) text ]
