-- ===== src/Examples/Inbounds.antt =====
-- A push of one Xray inbound with its certificate.
use rc_node.Base.Dict.{lookup-insert, insert, Dict, lookup}
use rc_node.Base.{
  Bool-cases, sym, inl, inr, ◌∙◌, arith, ◌==◌, String, ◌≡◌, refl, ◌⊎◌, true, none, some, List, [],
  ◌∷◌, ◌++◌, if◌then◌else◌, ◌==◌, string_eq, nat_eq, ok, err, type_error, texts_eq,
}
use rc_node.Base.Int.{pos}
use rc_node.Base.Text.Trim.{lower}
use rc_node.Base.Text.Codes.{utf8, codes}
use rc_node.Base.Json.{Json, Coercions, truthy, of_entries, of_elements}
use rc_node.Base.Json.Json.{text, object, array}
use rc_node.App.Settings.{Host, authorize_core, unknown, check_paths, is_under}
use rc_node.App.Uploads.{is_name}
use rc_node.App.Material.{File, Pems, cert_dir_of, materialize_xray_tls}
use rc_node.App.Inbounds.{
  InboundDocument, Site, Studio, core_inbounds, prepare, answered, apply_prepared,
}
use rc_node.App.Inbounds.Files.{core_inbounds-IsConfined}
use rc_node.Examples.Data.{armed}

abbrev py : Coercions
py = record { other_str = λ v. ""; other_dict = λ v. err type_error }

abbrev host : Host
host = record {
  available_drivers = "xray" ∷ [];
  schema_properties = λ core_id. [];
  default_settings = λ core_id. [];
  is_absolute = λ path. true;
  resolve = λ path. if path == "/cores" then "/" ∷ "cores" ∷ [] else "/" ∷ "cores" ∷ "certs" ∷ [];
  core_root = "/cores";
  repr_sorted = λ names. "[]";
}

abbrev pems : Pems
pems = record {
  path_text = λ dir name. name;
  join = λ dir name. dir ++ name ∷ [];
  invalid_pair = λ cert key. none;
  settings = [];
}

-- The file of the driver.
abbrev own : List String
own = "/" ∷ "cores" ∷ "xray.json" ∷ []

abbrev IsOwn : String → List String → Type 0
IsOwn core_id path = path ≡ own

abbrev studio : Studio Unit
studio = record {
  list_cores = "xray" ∷ [];
  apply_studio_document = λ core_id document st.
      (ok tt, (st.0, insert own (record { content = "{}"; mode = 420 }) st.1));
  str_error = λ e. "error";
  type_name = λ e. "Exception";
}

abbrev single : String → Json → Json
single key v = object (of_entries ((key, v) ∷ []))

abbrev pair : Json
pair = object (
    of_entries (
      ("certificateFile", text "zagros-material://a.crt")
      ∷ ("keyFile", text "zagros-material://a.key")
      ∷ []))

abbrev inbound : Json
inbound =
    single "streamSettings"
      (single "tlsSettings" (single "certificates" (array (of_elements (pair ∷ [])))))

abbrev body : InboundDocument
body = record {
  document = ("inbounds", array (of_elements (inbound ∷ []))) ∷ [];
  material = ("a.crt", "CERT") ∷ ("a.key", "KEY") ∷ [];
}

abbrev site : Site Unit
site = record { identity = armed; files = []; cores = tt }

abbrev place : List String
place = "/" ∷ "cores" ∷ "certs" ∷ "a.key" ∷ []

abbrev key_file : File
key_file = record { content = "KEY"; mode = 384 }

written :
    lookup place (core_inbounds py host pems studio lower (pos 0) "xray" body site).1.files
    ≡ some key_file
unfolding core_inbounds prepare apply_prepared answered authorize_core string_eq nat_eq unknown
    check_paths materialize_xray_tls utf8 codes is_under truthy texts_eq
written = refl

owns :
    (document : Dict String Json) (cores : Unit {0}) (files : Dict (List String) File)
    (path : List String) (file : File)
    → lookup path ((studio.apply_studio_document "xray" document (cores, files)).1).1 ≡ some file
    → (lookup path files ≡ some file) ⊎ IsOwn "xray" path
owns document cores files path file h = elim (Bool-cases (path == own)) [
  | inl same ↦ inr (ground arith)
  | inr differ ↦ inl (
      sym (lookup-insert path own (record { content = "{}"; mode = 420 }) files ∙ (rw differ refl))
      ∙ h)
]

core_inbounds-IsConfined_example :
    (lookup place site.files ≡ some key_file)
    ⊎ (IsOwn "xray" place
        ⊎ (◌≡◌ {A = String} "xray" "xray"
            × ((name : String) × (place ≡ cert_dir_of py host pems ++ name ∷ [])
                × (is_name name ≡ true)
                × (lookup name body.material ≡ some key_file.content)
                × (is_under (host.resolve host.core_root) (cert_dir_of py host pems) ≡ true))))
core_inbounds-IsConfined_example =
    core_inbounds-IsConfined py host pems studio lower (pos 0) "xray" body site place key_file IsOwn
      (λ name named. refl) owns written
