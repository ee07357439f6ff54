-- ===== src/App/Material/Writes.antt =====
-- What `_materialize_xray_tls` keeps while it writes the files of a pair.
use rc_node.Base.{
  Keeps, String, ◌≡◌, refl, sym, ◌⊎◌, inl, inr, true, some, List, ◌∷◌, arith, Bool-cases,
  Option-cases, string_eq, nat_eq, texts_eq,
}
use rc_node.Base.Json.{Json, Coercions}
use rc_node.Base.Dict.{Dict, lookup, insert, lookup-insert}
use rc_node.App.Material.{File, Materials, Pems, write_pair, resolve_pair}
use rc_node.App.Uploads.{is_pair, is_name}

is_pair-names :
    (cert_name key_name : String)
    → is_pair cert_name key_name ≡ true
    → (is_name cert_name ≡ true) × (is_name key_name ≡ true)
unfolding is_pair
is_pair-names cert_name key_name h = ground arith

module _ (py : Coercions) (pems : Pems) (material : Dict String String) (cert_dir : List String)
    (before : Dict (List String) File) where
  -- The path is that of a name in the certificate directory, and the content is the upload of that
  -- name.
  pub record IsUpload (path : List String) (file : File) : Type 0 where
    pub name : String
    pub named : is_name name ≡ true
    pub uploaded : lookup name material ≡ some file.content
    pub placed : path ≡ pems.join cert_dir name

  abbrev pub IsConfined : Materials → Type 0
  IsConfined m =
      (path : List String) (file : File)
      → lookup path m.files ≡ some file
      → (lookup path before ≡ some file) ⊎ IsUpload path file

  insert-IsConfined :
      (path : List String) (file : File) (files : Dict (List String) File)
      (consumed consumed' : List String)
      → IsUpload path file
      → IsConfined (record { files = files; consumed = consumed })
      → IsConfined (record { files = insert path file files; consumed = consumed' })
  insert-IsConfined path file files consumed consumed' u h p f e =
      let found = lookup-insert p path file files in
      elim (texts_eq.dec p path) [
        | yes same ↦ let now : file ≡ f = ground arith in inr (rw (same, sym now) u)
        | no differ ↦ h p f (ground arith)
      ]

  pub resolve_pair-Keeps :
      (cert_name key_name : String) (pair : Dict String Json)
      → Keeps IsConfined (resolve_pair py pems material cert_dir cert_name key_name pair)
  unfolding resolve_pair write_pair
  resolve_pair-Keeps cert_name key_name pair m h = elim (Bool-cases (is_pair cert_name key_name)) [
    | inr wrong ↦ rw wrong h
    | inl good ↦ elim (Option-cases (lookup cert_name material)) [
      | inl missing ↦ rw (good, missing) h
      | inr (cert_pem, c) ↦ elim (Option-cases (lookup key_name material)) [
        | inl missing ↦ rw (good, c, missing) h
        | inr (key_pem, k) ↦ elim (Option-cases (pems.invalid_pair cert_pem key_pem)) [
          | inr (message, bad) ↦ rw (good, c, k, bad) h
          | inl valid ↦
              rw (good, c, k, valid)
                (insert-IsConfined (pems.join cert_dir key_name)
                  (record { content = key_pem; mode = 384 })
                  (insert (pems.join cert_dir cert_name) (record { content = cert_pem; mode = 420 })
                    m.files)
                  m.consumed (cert_name ∷ key_name ∷ m.consumed)
                  (record {
                    name = key_name;
                    named = (is_pair-names cert_name key_name good).1;
                    uploaded = k;
                    placed = refl;
                  })
                  (insert-IsConfined (pems.join cert_dir cert_name)
                    (record { content = cert_pem; mode = 420 }) m.files m.consumed m.consumed
                    (record {
                      name = cert_name;
                      named = (is_pair-names cert_name key_name good).0;
                      uploaded = c;
                      placed = refl;
                    })
                    h))
        ]
      ]
    ]
  ]
