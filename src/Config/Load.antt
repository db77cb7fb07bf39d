-- ===== src/Config/Load.antt =====
-- dns/internal/config/load.go: reading the configuration file. The file system and the decoder of
-- gopkg.in/yaml.v3 are parameters.
use Prim.Native.String.{String}
use text.Mathlib.Text.{◌==◌ as str_eq}
use homedns_analytics.Common.{
  ◌≡◌, ◌↔◌, refl, ap, ◌∙◌, subst, false, List, [], ◌∷◌, arith, GoError, Result, ok, err, bind,
  bind-ok, ok_inj, Bool-cases, inl, inr, if◌then◌else◌,
}
use homedns_analytics.Net.{NetOps}
use homedns_analytics.Config.{Config, ConfigError, default, validate}

-- The second call of `Decode` on a file.
pub data Following : Type 0 where
  end_of_file another_document : Following
  broken : GoError → Following

-- An open file: what the first document, with known fields only, makes of a configuration, and what
-- follows it.
pub record Documents : Type 0 where
  pub decode : Config → Result GoError Config
  pub following : Following

pub data LoadError : Type 0 where
  empty_path several_documents : LoadError
  open_failed decode_failed following_failed : GoError → LoadError
  invalid : List ConfigError → LoadError

abbrev opened : Result GoError Documents → Result LoadError Documents
opened (ok d) = ok d
opened (err e) = err (open_failed e)

abbrev decoded : Result GoError Config → Result LoadError Config
decoded (ok c) = ok c
decoded (err e) = err (decode_failed e)

abbrev alone : Following → Config → Result LoadError Config
alone end_of_file c = ok c
alone another_document c = err several_documents
alone (broken e) c = err (following_failed e)

abbrev validated : List ConfigError → Config → Result LoadError Config
validated [] c = ok c
validated (e ∷ es) c = err (invalid (e ∷ es))

-- `Load`; `open_file` is `os.Open`.
unfoldable pub load :
    NetOps → (String → Result GoError Documents) → String → Result LoadError Config
load net open_file path =
    if str_eq path ""
    then err empty_path
    else bind (opened (open_file path)) (λ d.
      bind (decoded (d.decode default))
        (λ c. bind (alone d.following c) (λ c. validated (validate net c) c)))

opened-ok : (r : Result GoError Documents) (d : Documents) → opened r ≡ ok d → r ≡ ok d
opened-ok (ok d') d h = ap ok (ok_inj {E = LoadError} h)
opened-ok (err e) d h = absurd (ground (arith, h))

decoded-ok : (r : Result GoError Config) (c : Config) → decoded r ≡ ok c → r ≡ ok c
decoded-ok (ok c') c h = ap ok (ok_inj {E = LoadError} h)
decoded-ok (err e) c h = absurd (ground (arith, h))

alone-ok : (f : Following) (c c' : Config) → alone f c ≡ ok c' → (f ≡ end_of_file) × (c ≡ c')
alone-ok end_of_file c c' h = (refl, ok_inj {E = LoadError} h)
alone-ok another_document c c' h = absurd (ground (arith, h))
alone-ok (broken e) c c' h = absurd (ground (arith, h))

validated-ok :
    (es : List ConfigError) (c c' : Config) → validated es c ≡ ok c' → (es ≡ []) × (c ≡ c')
validated-ok [] c c' h = (refl, ok_inj {E = LoadError} h)
validated-ok (e ∷ es) c c' h = absurd (ground (arith, h))

-- What a file has to be for `Load` to give the configuration `c`.
pub record IsLoaded (net : NetOps) (open_file : String → Result GoError Documents) (path : String)
    (c : Config) : Type 0 where
  pub named : str_eq path "" ≡ false
  pub content :
      (d : Documents) × (open_file path ≡ ok d)
      × (d.decode default ≡ ok c)
      × (d.following ≡ end_of_file)
  pub accepted : validate net c ≡ []

load-IsLoaded :
    (net : NetOps) (open_file : String → Result GoError Documents) (path : String) (c : Config)
    → load net open_file path ≡ ok c
    → IsLoaded net open_file path c
unfolding load
load-IsLoaded net open_file path c h = elim (Bool-cases (str_eq path "")) [
  | inl e ↦ absurd (ground (arith, h, e))
  | inr e ↦
      let (d, o, h₁) = bind-ok {E = LoadError} (opened (open_file path)) _ {b = c} (rw e at h) in
      let (c₁, k, h₂) = bind-ok {E = LoadError} (decoded (d.decode default)) _ {b = c} h₁ in
      let (c₂, a, h₃) = bind-ok {E = LoadError} (alone d.following c₁) _ {b = c} h₂ in
      let (f, same) = alone-ok d.following c₁ c₂ a in
      let (v, same') = validated-ok (validate net c₂) c₂ c h₃ in
      let final = same ∙ same' in
      record {
        named = e;
        content = (
          d,
          opened-ok (open_file path) d o,
          decoded-ok (d.decode default) c₁ k ∙ ap ok final,
          f,
        );
        accepted = subst (λ c. validate net c ≡ []) same' v;
      }
]

-- `Load` gives a configuration exactly if the path is not empty, the file opens, its only document
-- decodes over the defaults to that configuration, with nothing behind it, and `Validate` finds no
-- error in it.
pub load_iff :
    (net : NetOps) (open_file : String → Result GoError Documents) (path : String) (c : Config)
    → (load net open_file path ≡ ok c) ↔ IsLoaded net open_file path c
unfolding load
load_iff net open_file path c = (
  load-IsLoaded net open_file path c,
  λ v. let (d, o, k, f) = v.content in rw v.named (rw o (rw k (rw f (rw v.accepted refl)))),
)
