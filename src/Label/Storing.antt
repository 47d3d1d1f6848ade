-- ===== src/Label/Storing.antt =====
-- What src-tauri/src/commands/label.rs stores, and what src-tauri/src/dirs.rs reads of it.
use alayaface.Prelude.{
  ◌≤◌, ◌≡◌, ◌↔◌, refl, ap, sym, ◌∙◌, subst, Bool, true, false, Option, none, some, [], Text, codes,
  length, is_empty, ltb, ltb→le, le→ltb, if◌then◌else◌, ok, err, arith, Bool-cases, Option-cases,
  Result-cases, ◌⊎◌, inl, inr,
}
use alayaface.Chars.{trim}
use alayaface.Json.{Serde}
use alayaface.Dirs.Names.{safe_path_component}
use alayaface.Dirs.Paths.{FilePath, join}
use alayaface.Label.{
  max_label_chars, read_session_label, label_key, label_err_doc_shape, label_err_bad_id,
  label_err_not_top, Disk, LabelReply, reject_doc, label_reject_reason, label_of, store_document,
  sync_session_label,
}

read_label :
    (label_doc : Text → Option Text) (document label : Text)
    → label_doc document ≡ some label
    → is_empty (trim label) ≡ false
    → length label ≤ max_label_chars
    → read_session_label label_doc (some document) ≡ label
unfolding read_session_label
read_label label_doc document label e name fits =
    let short = le→ltb max_label_chars (length label) fits in
    rw (read_session_label, e, name, short) refl

module _ (serde : Serde) where
  -- The document is an object whose `label` is the given text, within the limit.
  unfoldable pub IsLabelled : serde.Value → Text → Type 0
  IsLabelled doc text =
      (serde.is_object doc ≡ true)
      × ((raw : serde.Value) × (serde.get doc label_key ≡ some raw)
          × (serde.as_str raw ≡ some text))
      × (length text ≤ max_label_chars)

  reject_doc-none :
      (doc : serde.Value) → reject_doc serde doc ≡ none → IsLabelled doc (label_of serde doc)
  unfolding reject_doc IsLabelled label_of
  reject_doc-none doc h = elim (Option-cases (serde.get doc label_key)) [
    | inl e ↦ ground arith
    | inr (raw, e) ↦ elim (Option-cases (serde.as_str raw)) [
      | inl s ↦ ground arith
      | inr (text, s) ↦ elim (Bool-cases (ltb max_label_chars (length text))) [
        | inl long ↦ ground arith
        | inr short ↦
            let object : serde.is_object doc ≡ true = ground arith in
            let same : label_of serde doc ≡ text = rw (label_of, e, s) refl in
            (
              object,
              (raw, e, s ∙ ap some (sym same)),
              rw same (ltb→le max_label_chars (length text) short),
            )
      ]
    ]
  ]

  accepted-text :
      (doc : serde.Value) (text : Text)
      → IsLabelled doc text
      → (reject_doc serde doc ≡ none) × (label_of serde doc ≡ text)
  unfolding reject_doc IsLabelled label_of
  accepted-text doc text h =
      let (object, (raw, e, s), short) = h in
      let fits = le→ltb max_label_chars (length text) short in
      (rw (reject_doc, object, e, s, fits) refl, rw (label_of, e, s) refl)

  label_fits :
      (doc : serde.Value)
      → reject_doc serde doc ≡ none
      → length (label_of serde doc) ≤ max_label_chars
  unfolding IsLabelled
  label_fits doc h = let (object, stands, fits) = reject_doc-none doc h in fits

  -- What a successful store leaves is read as the label, or as no name if that is blank.
  store_document-read :
      (label_doc : Text → Option Text) (disk : Disk) (document : Text) (doc : serde.Value)
      (file after : Option Text) (reply : LabelReply)
      → reject_doc serde doc ≡ none
      → label_doc document ≡ some (label_of serde doc)
      → store_document serde disk document doc file ≡ (after, ok reply)
      → read_session_label label_doc after
        ≡ (if is_empty (trim (label_of serde doc)) then [] else label_of serde doc)
  unfolding store_document read_session_label
  store_document-read label_doc disk document doc file after reply valid e h =
      elim (Bool-cases (is_empty (trim (label_of serde doc)))) [
        | inl blank ↦ elim (Result-cases disk.remove) [
          | inl (done, r) ↦ let at : none ≡ after = ground arith in rw (sym at, blank) refl
          | inr (why, r) ↦ ground arith
        ]
        | inr name ↦ elim (Result-cases disk.write) [
          | inl (done, r) ↦
              let at : some document ≡ after = ground arith in
              let fits = label_fits doc valid in
              rw (sym at, name) (read_label label_doc document (label_of serde doc) e name fits)
          | inr (why, r) ↦ ground arith
        ]
      ]

  store_document-err :
      (disk : Disk) (document : Text) (doc : serde.Value) (file after : Option Text) (why : Text)
      → store_document serde disk document doc file ≡ (after, err why)
      → after ≡ file
  unfolding store_document
  store_document-err disk document doc file after why h =
      elim (Bool-cases (is_empty (trim (label_of serde doc)))) [
        | inl blank ↦ elim (Result-cases disk.remove) [
          | inl (done, r) ↦ ground arith
          | inr (e, r) ↦ ground arith
        ]
        | inr name ↦ elim (Result-cases disk.write) [
          | inl (done, r) ↦ ground arith
          | inr (e, r) ↦ ground arith
        ]
      ]

  reject_reason-doc :
      (raw : Text) (doc : serde.Value)
      → serde.from_str raw ≡ some doc
      → reject_doc serde doc ≡ label_reject_reason serde raw
  unfolding label_reject_reason
  reject_reason-doc raw doc e = rw (label_reject_reason, e) refl

  reject_reason_corrupt :
      (raw : Text)
      → serde.from_str raw ≡ none
      → label_reject_reason serde raw ≡ some label_err_doc_shape
  unfolding label_reject_reason
  reject_reason_corrupt raw e = rw (label_reject_reason, e) refl

  -- A document is accepted exactly if it decodes to an object whose `label` is a text of at most 120
  -- characters.
  pub label_reject_reason-none :
      (raw : Text)
      → (label_reject_reason serde raw ≡ none) ↔ (
          (doc : serde.Value) × (serde.from_str raw ≡ some doc)
          × IsLabelled doc (label_of serde doc))
  unfolding label_reject_reason
  label_reject_reason-none raw = (
    λ h. elim (Option-cases (serde.from_str raw)) [
      | inl e ↦ cc (reject_reason_corrupt raw e)
      | inr (doc, e) ↦ (doc, e, reject_doc-none doc (reject_reason-doc raw doc e ∙ h))
    ],
    λ (doc, e, labelled).
        rw (label_reject_reason, e) (accepted-text doc (label_of serde doc) labelled).0,
  )

  module _ (label_doc : Text → Option Text) (exists : FilePath → Bool) (disk : Disk) where
    -- What a request that gets to the file has passed.
    Passed : FilePath → Text → Text → serde.Value → Type 0
    Passed root session_id document doc =
        (safe_path_component session_id ≡ true)
        × (exists (join (join root session_id) (codes "session.alaya")) ≡ true)
        × (serde.from_str document ≡ some doc)
        × (reject_doc serde doc ≡ none)

    sync_session_label-cases :
        (root : FilePath) (session_id document : Text) (file : Option Text)
        → ((why : Text) × (sync_session_label serde exists disk root session_id document file
              ≡ (file, err why)))
          ⊎ ((doc : serde.Value) × Passed root session_id document doc
              × (sync_session_label serde exists disk root session_id document file
                  ≡ store_document serde disk document doc file))
    unfolding sync_session_label Passed
    sync_session_label-cases root session_id document file =
        elim (Bool-cases (safe_path_component session_id)) [
          | inr unsafe ↦ inl (label_err_bad_id, rw (sync_session_label, unsafe) refl)
          | inl safe ↦
              elim (Bool-cases (exists (join (join root session_id) (codes "session.alaya")))) [
                | inr absent ↦ inl (label_err_not_top, rw (sync_session_label, safe, absent) refl)
                | inl there ↦ elim (Option-cases (label_reject_reason serde document)) [
                  | inr (why, r) ↦ inl (why, rw (sync_session_label, safe, there, r) refl)
                  | inl r ↦ elim (Option-cases (serde.from_str document)) [
                    | inl e ↦
                        inl (label_err_doc_shape, rw (sync_session_label, safe, there, r, e) refl)
                    | inr (doc, e) ↦ elim (Result-cases disk.ensure) [
                      | inr (why, d) ↦ inl (why, rw (sync_session_label, safe, there, r, e, d) refl)
                      | inl (done, d) ↦ inr (
                        doc,
                        (safe, there, e, reject_reason-doc document doc e ∙ r),
                        rw (sync_session_label, safe, there, r, e, d) refl,
                      )
                    ]
                  ]
                ]
              ]
        ]

    -- The decoders of the two commands agree on a document (serde's derived one rejects a key that
    -- stands twice). If such a document is stored, the answer is a success, the id is a safe path
    -- component of a session that exists, and the label is read back: the text of the document, or no
    -- name if that is blank.
    pub sync_session_label-read :
        (root : FilePath) (session_id document : Text) (doc : serde.Value)
        (file after : Option Text) (reply : LabelReply)
        → serde.from_str document ≡ some doc
        → label_doc document ≡ some (label_of serde doc)
        → sync_session_label serde exists disk root session_id document file ≡ (after, ok reply)
        → (safe_path_component session_id ≡ true)
          × (exists (join (join root session_id) (codes "session.alaya")) ≡ true)
          × (read_session_label label_doc after
              ≡ (if is_empty (trim (label_of serde doc)) then [] else label_of serde doc))
    unfolding Passed
    sync_session_label-read root session_id document doc file after reply decoded agree h =
        elim (sync_session_label-cases root session_id document file) [
          | inl (why, failed) ↦
              let both : err why ≡ ok reply = ap (λ p. p.1) (sym failed ∙ h) in ground arith
          | inr (found, (safe, there, e, valid), stored) ↦
              let same : found ≡ doc = ground arith in
              let valid' : reject_doc serde doc ≡ none =
                subst (λ d. reject_doc serde d ≡ none) same valid in
              let stored' : store_document serde disk document doc file ≡ (after, ok reply) =
                subst (λ d. store_document serde disk document d file ≡ (after, ok reply)) same
                  (sym stored ∙ h) in
              (
                safe,
                there,
                store_document-read label_doc disk document doc file after reply valid' agree
                    stored',
              )
        ]

    -- A request that is refused or fails leaves the file as it was.
    pub sync_session_label-err :
        (root : FilePath) (session_id document : Text) (file after : Option Text) (why : Text)
        → sync_session_label serde exists disk root session_id document file ≡ (after, err why)
        → after ≡ file
    sync_session_label-err root session_id document file after why h =
        elim (sync_session_label-cases root session_id document file) [
          | inl (reason, failed) ↦ sym (ap (λ p. p.0) (sym failed ∙ h))
          | inr (doc, passed, stored) ↦
              store_document-err disk document doc file after why (sym stored ∙ h)
        ]
