-- ===== src/App/Material/Confined.antt =====
-- Which files an upload of TLS material can write.
use rc_node.Base.{
  zero, suc, String, ◌≡◌, refl, sym, ap, ◌∙◌, ◌⊎◌, inl, inr, true, false, some, List, [], ◌∷◌, ◌++◌,
  arith, Bool-cases, Option-cases, string_eq, nat_eq, Result, ok, Result-cases, texts_eq, pure,
  ◌>>=◌, Keeps, bind-Keeps,
}
use rc_node.Base.Int.{ℤ}
use rc_node.Base.Json.{of_elements, Json, get_json, truthy, elements, as_dict, Coercions}
use rc_node.Base.Dict.{Dict, keys, lookup, insert}
use rc_node.App.Settings.{Host, is_under}
use rc_node.App.Material.{
  materialize_document, refuse_unused, materialize_xray_tls, cert_dir_of, materialize_pair,
  materialize_pairs, materialize_certificates, materialize_inbound, materialize_inbounds, object_of,
  ref_of, with_certificates, File, Materials, Pems,
}
use rc_node.App.Uploads.{unused, check_material, after, material_prefix, is_name}
use rc_node.App.Material.Writes.{IsConfined, resolve_pair-Keeps}

nil-or_cons {ℓ} : {A : Type ℓ} (xs : List A) → (xs ≡ []) ⊎ ((x : A) × (ys : List A) × (xs ≡ x ∷ ys))
nil-or_cons [] = inl refl
nil-or_cons (x ∷ xs) = inr (x, xs, refl)

module _ (py : Coercions) (pems : Pems) (material : Dict String String) (cert_dir : List String)
    (before : Dict (List String) File) where
  materialize_pair-Keeps :
      (v : Json)
      → Keeps
          (IsConfined py pems material cert_dir before)
          (materialize_pair py pems material cert_dir v)
  unfolding materialize_pair
  materialize_pair-Keeps v m h = elim (Option-cases (as_dict v)) [
    | inl other ↦ rw (other, materialize_pair) h
    | inr (pair, e) ↦
        elim (Option-cases (after material_prefix (ref_of py "certificateFile" pair))) [
          | inl local ↦ elim (Option-cases (after material_prefix (ref_of py "keyFile" pair))) [
            | inl local' ↦ rw (e, local, local', materialize_pair) h
            | inr (key_name, k) ↦ rw (e, local, k, materialize_pair) h
          ]
          | inr (cert_name, c) ↦
              elim (Option-cases (after material_prefix (ref_of py "keyFile" pair))) [
                | inl local ↦ rw (e, c, local, materialize_pair) h
                | inr (key_name, k) ↦
                    rw (e, c, k, materialize_pair)
                      (resolve_pair-Keeps py pems material cert_dir before cert_name key_name pair m
                        h)
              ]
        ]
  ]

  materialize_pairs-Keeps :
      (vs : List Json)
      → Keeps
          (IsConfined py pems material cert_dir before)
          (materialize_pairs py pems material cert_dir vs)
  unfolding materialize_pairs
  materialize_pairs-Keeps [] m h = h
  materialize_pairs-Keeps (v ∷ vs) m h =
      bind-Keeps (IsConfined py pems material cert_dir before)
        (materialize_pair py pems material cert_dir v)
        (λ pair. materialize_pairs py pems material cert_dir vs >>= λ pairs. pure (pair ∷ pairs))
        (materialize_pair-Keeps v)
        (λ pair.
          bind-Keeps (IsConfined py pems material cert_dir before)
            (materialize_pairs py pems material cert_dir vs) (λ pairs. pure (pair ∷ pairs))
            (materialize_pairs-Keeps vs) (λ pairs m h. h))
        m h

  materialize_certificates-Keeps :
      (v : Json) (inbound stream tls : Dict String Json)
      → Keeps
          (IsConfined py pems material cert_dir before)
          (materialize_certificates py pems material cert_dir v inbound stream tls)
  unfolding materialize_certificates
  materialize_certificates-Keeps (Json.array items) inbound stream tls m h =
      bind-Keeps (IsConfined py pems material cert_dir before)
        (materialize_pairs py pems material cert_dir (elements items))
        (λ pairs. pure (with_certificates inbound stream tls pairs))
        (materialize_pairs-Keeps (elements items)) (λ pairs m h. h) m h
  materialize_certificates-Keeps Json.null inbound stream tls m h = h
  materialize_certificates-Keeps (Json.boolean b) inbound stream tls m h = h
  materialize_certificates-Keeps (Json.number n) inbound stream tls m h = h
  materialize_certificates-Keeps (Json.text s) inbound stream tls m h = h
  materialize_certificates-Keeps (Json.object o) inbound stream tls m h = h

  materialize_inbound-Keeps :
      (v : Json)
      → Keeps
          (IsConfined py pems material cert_dir before)
          (materialize_inbound py pems material cert_dir v)
  unfolding materialize_inbound
  materialize_inbound-Keeps v m h = elim (Option-cases (as_dict v)) [
    | inl other ↦ rw (other, materialize_inbound) h
    | inr (inbound, i) ↦ elim (Result-cases (object_of "streamSettings" inbound)) [
      | inr (e, bad) ↦ rw (i, bad, materialize_inbound) h
      | inl (stream, s) ↦ elim (Result-cases (object_of "tlsSettings" stream)) [
        | inr (e, bad) ↦ rw (i, s, bad, materialize_inbound) h
        | inl (tls, t) ↦
            rw (i, s, t, materialize_inbound)
              (materialize_certificates-Keeps (get_json "certificates" tls) inbound stream tls m h)
      ]
    ]
  ]

  materialize_inbounds-Keeps :
      (vs : List Json)
      → Keeps
          (IsConfined py pems material cert_dir before)
          (materialize_inbounds py pems material cert_dir vs)
  unfolding materialize_inbounds
  materialize_inbounds-Keeps [] m h = h
  materialize_inbounds-Keeps (v ∷ vs) m h =
      bind-Keeps (IsConfined py pems material cert_dir before)
        (materialize_inbound py pems material cert_dir v)
        (λ inbound. materialize_inbounds py pems material cert_dir vs >>= λ inbounds.
          pure (inbound ∷ inbounds))
        (materialize_inbound-Keeps v)
        (λ inbound.
          bind-Keeps (IsConfined py pems material cert_dir before)
            (materialize_inbounds py pems material cert_dir vs)
            (λ inbounds. pure (inbound ∷ inbounds)) (materialize_inbounds-Keeps vs)
            (λ inbounds m h. h))
        m h

  materialize_document-Keeps :
      (v : Json) (document : Dict String Json)
      → Keeps
          (IsConfined py pems material cert_dir before)
          (materialize_document py pems material cert_dir v document)
  unfolding materialize_document truthy
  materialize_document-Keeps (Json.array items) document m h =
      bind-Keeps (IsConfined py pems material cert_dir before)
        (materialize_inbounds py pems material cert_dir (elements items))
        (λ inbounds. pure (insert "inbounds" (Json.array (of_elements inbounds)) document))
        (materialize_inbounds-Keeps (elements items)) (λ inbounds m h. h) m h
  materialize_document-Keeps Json.null document m h = h
  materialize_document-Keeps (Json.boolean true) document m h = h
  materialize_document-Keeps (Json.boolean false) document m h = h
  materialize_document-Keeps (Json.number (ℤ.pos zero)) document m h = h
  materialize_document-Keeps (Json.number (ℤ.pos (suc n))) document m h = h
  materialize_document-Keeps (Json.number (ℤ.negsuc n)) document m h = h
  materialize_document-Keeps (Json.text s) document m h = h
  materialize_document-Keeps (Json.object o) document m h = h

  refuse_unused-Keeps :
      (document : Dict String Json)
      → Keeps
          (IsConfined py pems material cert_dir before)
          (refuse_unused py pems material cert_dir document)
  unfolding refuse_unused
  refuse_unused-Keeps document m h = elim (nil-or_cons (unused m.consumed (keys material))) [
    | inl none' ↦ rw (none', refuse_unused) h
    | inr (name, names, e) ↦ rw (e, refuse_unused) h
  ]

module _ (py : Coercions) (host : Host) (pems : Pems) (document : Dict String Json)
    (material : Dict String String) (files : Dict (List String) File) where
  materialized : List String → Result (Dict String Json) × Materials
  materialized cert_dir =
      (materialize_document py pems material cert_dir (get_json "inbounds" document) document
          >>= refuse_unused py pems material cert_dir)
        (record { files = files; consumed = [] })

  -- The function behind its checks.
  materialize_xray_tls-checked :
      check_material material ≡ ok tt
      → is_under (host.resolve host.core_root) (cert_dir_of py host pems) ≡ true
      → materialize_xray_tls py host pems document material files
        ≡ materialized (cert_dir_of py host pems)
  unfolding materialize_xray_tls materialized
  materialize_xray_tls-checked checked under = rw (checked, under, materialize_xray_tls) refl

  materialized-IsConfined :
      (cert_dir : List String)
      → IsConfined py pems material cert_dir files (materialized cert_dir).1
  unfolding materialized
  materialized-IsConfined cert_dir =
      bind-Keeps (IsConfined py pems material cert_dir files)
        (materialize_document py pems material cert_dir (get_json "inbounds" document) document)
        (refuse_unused py pems material cert_dir)
        (materialize_document-Keeps py pems material cert_dir files (get_json "inbounds" document)
          document)
        (refuse_unused-Keeps py pems material cert_dir files)
        (record { files = files; consumed = [] }) (λ path file h. inl h)

-- Each file is an old one, or an upload that lies directly in the certificate directory.
pub materialize_xray_tls-IsConfined :
    (py : Coercions) (host : Host) (pems : Pems) (document : Dict String Json)
    (material : Dict String String) (files : Dict (List String) File) (path : List String)
    (file : File)
    → let cert_dir = cert_dir_of py host pems in
      ((name : String) → is_name name ≡ true → pems.join cert_dir name ≡ cert_dir ++ name ∷ [])
      → lookup path (materialize_xray_tls py host pems document material files).1.files ≡ some file
      → (lookup path files ≡ some file)
        ⊎ ((name : String) × (path ≡ cert_dir_of py host pems ++ name ∷ [])
            × (is_name name ≡ true)
            × (lookup name material ≡ some file.content)
            × (is_under (host.resolve host.core_root) (cert_dir_of py host pems) ≡ true))
unfolding materialize_xray_tls
materialize_xray_tls-IsConfined py host pems document material files path file joins h =
    let cert_dir = cert_dir_of py host pems in
    elim (Result-cases (check_material material)) [
      | inr (e, bad) ↦ inl (ground arith)
      | inl (u, checked) ↦ elim (Bool-cases (is_under (host.resolve host.core_root) cert_dir)) [
        | inr escapes ↦ inl (ground arith)
        | inl under ↦
            let e =
              materialize_xray_tls-checked py host pems document material files checked under in
            let h' =
              ap (λ (r : Result (Dict String Json) × Materials). lookup path r.1.files) (sym e)
              ∙ h in
            elim (materialized-IsConfined py host pems document material files cert_dir path file
              h') [
                | inl old ↦ inl old
                | inr u ↦ inr (u.name, u.placed ∙ joins u.name u.named, u.named, u.uploaded, under)
              ]
      ]
    ]
