-- ===== src/App/Inbounds/Files.antt =====
-- Which files of the host a push of inbounds can write.
use rc_node.Base.{
  String, ◌≡◌, refl, sym, ap, ◌∙◌, ◌⊎◌, inl, inr, true, ◌&&◌, not, some, List, [], ◌∷◌, ◌++◌, arith,
  ltb, ◌==◌, Bool-cases, string_eq, nat_eq, length, Result, ok, err, texts_eq, Error, Result-cases,
  contains,
}
use rc_node.Base.Int.{ℤ}
use rc_node.Base.Dict.{Dict, lookup}
use rc_node.Base.Json.{get_json, Json, Coercions}
use rc_node.App.Settings.{Host, authorize_core, is_under}
use rc_node.App.Uploads.{is_name}
use rc_node.App.Material.{File, Pems, materialize_xray_tls, cert_dir_of}
use rc_node.App.Material.Confined.{materialize_xray_tls-IsConfined}
use rc_node.App.Inbounds.{
  InboundDocument, Site, Studio, prepare, answered, apply_prepared, core_inbounds, inbound_count,
}

module _ {D : Type 0} (py : Coercions) (host : Host) (pems : Pems) (studio : Studio D) where
  answered-files :
      (now : ℤ) (core_id : String) (body : InboundDocument) (outcome : Result (Unit {0}))
      (s : Site D)
      → (answered py host pems studio now core_id body outcome s).1.files ≡ s.files
  unfolding answered
  answered-files now core_id body (err (Error.security_error m)) s = refl
  answered-files now core_id body (err (Error.job_conflict_error m)) s = refl
  answered-files now core_id body (err (Error.http_exception n m)) s = refl
  answered-files now core_id body (err (Error.value_error m)) s = refl
  answered-files now core_id body (err (Error.type_error)) s = refl
  answered-files now core_id body (err (Error.key_error)) s = refl
  answered-files now core_id body (err (Error.os_error)) s = refl
  answered-files now core_id body (err (Error.timeout_error)) s = refl
  answered-files now core_id body (err (Error.not_implemented_error)) s = refl
  answered-files now core_id body (err (Error.other_error m)) s = refl
  answered-files now core_id body (ok u) s =
      elim (Result-cases (inbound_count (get_json "inbounds" body.document))) [
        | inl (n, e) ↦ rw (e, answered) refl
        | inr (x, e) ↦ rw (e, answered) refl
      ]

  apply_prepared-files :
      (now : ℤ) (core_id : String) (body : InboundDocument) (document : Dict String Json)
      (s : Site D)
      → (apply_prepared py host pems studio now core_id body (ok document) s).1.files
        ≡ ((studio.apply_studio_document core_id document (s.cores, s.files)).1).1
  unfolding apply_prepared
  apply_prepared-files now core_id body document s =
      let (outcome, (d, files)) =
        studio.apply_studio_document core_id document (s.cores, s.files) in
      answered-files now core_id body outcome (record s { cores = d; files = files })

  apply_prepared-refused :
      (now : ℤ) (core_id : String) (body : InboundDocument) (e : Error) (s : Site D)
      → (apply_prepared py host pems studio now core_id body (err e) s).1.files ≡ s.files
  unfolding apply_prepared
  apply_prepared-refused now core_id body e s = refl

  -- The files that the core manager writes for a core, and nothing else.
  abbrev pub Writes : (String → List String → Type 0) → String → Type 0
  Writes Owns core_id =
      (document : Dict String Json) (cores : D) (files : Dict (List String) File)
      (path : List String) (file : File)
      → lookup path ((studio.apply_studio_document core_id document (cores, files)).1).1 ≡ some file
      → (lookup path files ≡ some file) ⊎ Owns core_id path

  apply_prepared-Writes :
      (Owns : String → List String → Type 0) (now : ℤ) (core_id : String) (body : InboundDocument)
      (r : Result (Dict String Json)) (s : Site D) (path : List String) (file : File)
      → Writes Owns core_id
      → lookup path (apply_prepared py host pems studio now core_id body r s).1.files ≡ some file
      → (lookup path s.files ≡ some file) ⊎ Owns core_id path
  apply_prepared-Writes Owns now core_id body (err e) s path file writes h =
      inl (ap (lookup path) (sym (apply_prepared-refused now core_id body e s)) ∙ h)
  apply_prepared-Writes Owns now core_id body (ok document) s path file writes h =
      writes document s.cores s.files path file
        (ap (lookup path) (sym (apply_prepared-files now core_id body document s)) ∙ h)

  prepare-files :
      (core_id : String) (body : InboundDocument) (files : Dict (List String) File)
      → ((prepare py host pems studio core_id body files).1 ≡ files)
        ⊎ ((core_id ≡ "xray")
            × ((prepare py host pems studio core_id body files).1
                ≡ (materialize_xray_tls py host pems body.document body.material files).1.files))
  unfolding prepare
  prepare-files core_id body files = elim (string_eq.dec core_id "xray") [
    | yes same ↦ inr (same, ground arith)
    | no differ ↦ inl (ground arith)
  ]

  prepared-IsConfined :
      (core_id : String) (body : InboundDocument) (s : Site D) (path : List String) (file : File)
      (Owns : String → List String → Type 0)
      → ((name : String)
          → is_name name ≡ true
          → pems.join (cert_dir_of py host pems) name ≡ cert_dir_of py host pems ++ name ∷ [])
      → lookup path (prepare py host pems studio core_id body s.files).1 ≡ some file
      → (lookup path s.files ≡ some file)
        ⊎ (Owns core_id path
            ⊎ ((core_id ≡ "xray")
                × ((name : String) × (path ≡ cert_dir_of py host pems ++ name ∷ [])
                    × (is_name name ≡ true)
                    × (lookup name body.material ≡ some file.content)
                    × (is_under (host.resolve host.core_root) (cert_dir_of py host pems) ≡ true))))
  prepared-IsConfined core_id body s path file Owns joins h =
      elim (prepare-files core_id body s.files) [
        | inl same ↦ inl (ap (λ (f : Dict (List String) File). lookup path f) (sym same) ∙ h)
        | inr (xray, e) ↦
            elim (materialize_xray_tls-IsConfined py host pems body.document body.material s.files
              path file joins (ap (λ (f : Dict (List String) File). lookup path f) (sym e) ∙ h)) [
                | inl old ↦ inl old
                | inr u ↦ inr (inr (xray, u))
              ]
      ]

  -- The state behind the call, as the manager has left it or as it was.
  core_inbounds-prepared :
      (str_lower : String → String) (now : ℤ) (core_id : String) (body : InboundDocument)
      (s : Site D)
      → let s' = (core_inbounds py host pems studio str_lower now core_id body s).1 in
        let (r, files) = prepare py host pems studio core_id body s.files in
        (s' ≡ s)
        ⊎ (s'
            ≡ (apply_prepared py host pems studio now core_id body r
                (record s { files = files })).1)
  unfolding core_inbounds
  core_inbounds-prepared str_lower now core_id body s =
      elim (Result-cases (authorize_core str_lower host core_id [])) [
        | inr (e, refused) ↦ inl (rw (refused, core_inbounds) refl)
        | inl (u, authorized) ↦ elim (Bool-cases (contains studio.list_cores core_id)) [
          | inr missing ↦ inl (rw (authorized, missing, core_inbounds) refl)
          | inl listed ↦
              elim (Bool-cases (not (core_id == "xray") && ltb 0 (length body.material))) [
                | inl other ↦ inl (rw (authorized, listed, other, core_inbounds) refl)
                | inr fine ↦ inr (rw (authorized, listed, fine, core_inbounds) refl)
              ]
        ]
      ]

  -- A push of inbounds is no way to write an arbitrary file. Whatever the core, the document and the
  -- uploads are, and also where the request is refused or an exception leaves it half-way: each file
  -- of the host is as it was before, or it is one of those that the core manager writes for this core,
  -- or the core is Xray and the file lies directly in the certificate directory, which is under the
  -- core root, has a name of letters, digits, dots, dashes and underscores, and holds the upload of
  -- that name. Which files the manager writes is a parameter, and the path of such a name in a
  -- directory is taken to be that of the directory and the name.
  pub core_inbounds-IsConfined :
      (str_lower : String → String) (now : ℤ) (core_id : String) (body : InboundDocument)
      (s : Site D) (path : List String) (file : File) (Owns : String → List String → Type 0)
      → ((name : String)
          → is_name name ≡ true
          → pems.join (cert_dir_of py host pems) name ≡ cert_dir_of py host pems ++ name ∷ [])
      → Writes Owns core_id
      → lookup path (core_inbounds py host pems studio str_lower now core_id body s).1.files
        ≡ some file
      → (lookup path s.files ≡ some file)
        ⊎ (Owns core_id path
            ⊎ ((core_id ≡ "xray")
                × ((name : String) × (path ≡ cert_dir_of py host pems ++ name ∷ [])
                    × (is_name name ≡ true)
                    × (lookup name body.material ≡ some file.content)
                    × (is_under (host.resolve host.core_root) (cert_dir_of py host pems) ≡ true))))
  core_inbounds-IsConfined str_lower now core_id body s path file Owns joins writes h =
      let (r, files) = prepare py host pems studio core_id body s.files in
      elim (core_inbounds-prepared str_lower now core_id body s) [
        | inl same ↦ inl (ap (λ (x : Site D). lookup path x.files) (sym same) ∙ h)
        | inr e ↦
            elim (apply_prepared-Writes Owns now core_id body r (record s { files = files }) path
              file writes (ap (λ (x : Site D). lookup path x.files) (sym e) ∙ h)) [
                | inr owned ↦ inr (inl owned)
                | inl found ↦ prepared-IsConfined core_id body s path file Owns joins found
              ]
      ]
