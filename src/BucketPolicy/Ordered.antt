-- ===== src/BucketPolicy/Ordered.antt =====
-- The documents that the JSONB column of internal/policies/aws_bucket_policy.go returns as they are:
-- those whose objects have their keys in its order, each key once.
use harbor_shield.Prelude.{
  ◌≡◌, refl, sym, ap, ◌∙◌, true, false, Option, none, some, List, [], ◌∷◌, map, Text, text_eq, All,
}
use harbor_shield.BucketPolicy.Json.{
  Json, null, boolean, number, str, arr, obj, Items, nil, cons, Fields, end, field,
}
use harbor_shield.BucketPolicy.Documents.{BucketPolicyStatement, BucketPolicyDocument}
use harbor_shield.BucketPolicy.Jsonb.{
  key_before, insert_field, jsonb, jsonb_items, jsonb_fields, jsonb_raw, jsonb_statement,
  jsonb_document,
}

-- The key of each field stands after this one.
unfoldable pub AllAfter : Text → Fields → Type 0
AllAfter k end = Unit
AllAfter k (field j v fs) = ((text_eq k j ≡ false) × (key_before k j ≡ true)) × AllAfter k fs

unfoldable mutual
  pub IsOrdered : Json → Type 0
  IsOrdered (arr vs) = AreItemsOrdered vs
  IsOrdered (obj fs) = AreFieldsOrdered fs
  IsOrdered null = Unit
  IsOrdered (boolean b) = Unit
  IsOrdered (number n) = Unit
  IsOrdered (str s) = Unit

  pub AreItemsOrdered : Items → Type 0
  AreItemsOrdered nil = Unit
  AreItemsOrdered (cons v vs) = IsOrdered v × AreItemsOrdered vs

  pub AreFieldsOrdered : Fields → Type 0
  AreFieldsOrdered end = Unit
  AreFieldsOrdered (field k v fs) = IsOrdered v × AllAfter k fs × AreFieldsOrdered fs

unfoldable append : Fields → Fields → Fields
append end gs = gs
append (field k v fs) gs = field k v (append fs gs)

-- Every key of the first fields is before the key.
AllBefore : Text → Fields → Type 0
AllBefore k end = Unit
AllBefore k (field j v fs) = ((text_eq j k ≡ false) × (key_before j k ≡ true)) × AllBefore k fs

insert_field-last :
    (k : Text) (v : Json) (fs : Fields)
    → AllBefore k fs
    → insert_field k v fs ≡ append fs (field k v end)
unfolding insert_field append AllBefore
insert_field-last k v end h = refl
insert_field-last k v (field j u fs) h = rw (h.0.0, h.0.1, insert_field-last k v fs h.1)

-- Every key of the first fields is before every key of the second ones.
Precedes : Fields → Fields → Type 0
Precedes fs end = Unit
Precedes fs (field k v gs) = AllBefore k fs × Precedes fs gs

AllBefore-append :
    (j k : Text) (v : Json) (fs : Fields)
    → AllBefore j fs
    → (text_eq k j ≡ false) × (key_before k j ≡ true)
    → AllBefore j (append fs (field k v end))
unfolding append AllBefore
AllBefore-append j k v end h b = (b, tt)
AllBefore-append j k v (field i u fs) h b = (h.0, AllBefore-append j k v fs h.1 b)

Precedes-append :
    (k : Text) (v : Json) (fs gs : Fields)
    → Precedes fs gs
    → AllAfter k gs
    → Precedes (append fs (field k v end)) gs
unfolding Precedes AllAfter
Precedes-append k v fs end h a = tt
Precedes-append k v fs (field j u gs) h a =
    (AllBefore-append j k v fs h.0 a.0, Precedes-append k v fs gs h.1 a.1)

Precedes-end : (gs : Fields) → Precedes end gs
unfolding Precedes AllBefore
Precedes-end end = tt
Precedes-end (field k v gs) = (tt, Precedes-end gs)

append-append :
    (k : Text) (v : Json) (fs gs : Fields)
    → append (append fs (field k v end)) gs ≡ append fs (field k v gs)
unfolding append
append-append k v end gs = refl
append-append k v (field j u fs) gs = ap (field j u) (append-append k v fs gs)

append-end : (fs : Fields) → append fs end ≡ fs
unfolding append
append-end end = refl
append-end (field k v fs) = ap (field k v) (append-end fs)

mutual
  unfolding jsonb IsOrdered append Precedes

  jsonb_of_IsOrdered : (v : Json) → IsOrdered v → jsonb v ≡ v
  jsonb_of_IsOrdered (arr vs) h = ap arr (jsonb_items_of_ordered vs h)
  jsonb_of_IsOrdered (obj fs) h = ap obj (jsonb_fields_of_ordered end fs h (Precedes-end fs))
  jsonb_of_IsOrdered null h = refl
  jsonb_of_IsOrdered (boolean b) h = refl
  jsonb_of_IsOrdered (number n) h = refl
  jsonb_of_IsOrdered (str s) h = refl

  jsonb_items_of_ordered : (vs : Items) → AreItemsOrdered vs → jsonb_items vs ≡ vs
  jsonb_items_of_ordered nil h = refl
  jsonb_items_of_ordered (cons v vs) h =
      rw (jsonb_of_IsOrdered v h.0, jsonb_items_of_ordered vs h.1)

  jsonb_fields_of_ordered :
      (fs gs : Fields) → AreFieldsOrdered gs → Precedes fs gs → jsonb_fields fs gs ≡ append fs gs
  jsonb_fields_of_ordered fs end h p = sym (append-end fs)
  jsonb_fields_of_ordered fs (field k v gs) h p =
      ap (λ u. jsonb_fields (insert_field k u fs) gs) (jsonb_of_IsOrdered v h.0)
      ∙ (ap (λ hs. jsonb_fields hs gs) (insert_field-last k v fs p.0)
          ∙ (jsonb_fields_of_ordered (append fs (field k v end)) gs h.2
                (Precedes-append k v fs gs p.1 h.1)
              ∙ append-append k v fs gs))

unfoldable pub IsRawOrdered : Option Json → Type 0
IsRawOrdered none = Unit
IsRawOrdered (some v) = IsOrdered v

pub record IsStatementOrdered (s : BucketPolicyStatement) : Type 0 where
  pub principal : IsRawOrdered s.principal
  pub not_principal : IsRawOrdered s.not_principal
  pub action : IsRawOrdered s.action
  pub resource : IsRawOrdered s.resource
  pub condition : IsRawOrdered s.condition

-- The objects of the document have their keys in the order of JSONB, each key once.
abbrev pub IsDocumentOrdered : BucketPolicyDocument → Type 0
IsDocumentOrdered d = All IsStatementOrdered d.statement

jsonb_raw_of_ordered : (o : Option Json) → IsRawOrdered o → jsonb_raw o ≡ o
unfolding jsonb_raw IsRawOrdered
jsonb_raw_of_ordered none h = refl
jsonb_raw_of_ordered (some v) h = ap some (jsonb_of_IsOrdered v h)

jsonb_statement_of_ordered :
    (s : BucketPolicyStatement) → IsStatementOrdered s → jsonb_statement s ≡ s
unfolding jsonb_statement
jsonb_statement_of_ordered s h = rw (
  jsonb_raw_of_ordered s.principal h.principal,
  jsonb_raw_of_ordered s.not_principal h.not_principal,
  jsonb_raw_of_ordered s.action h.action,
  jsonb_raw_of_ordered s.resource h.resource,
  jsonb_raw_of_ordered s.condition h.condition,
)

jsonb_statements_of_ordered :
    (ss : List BucketPolicyStatement) → All IsStatementOrdered ss → map jsonb_statement ss ≡ ss
jsonb_statements_of_ordered [] h = refl
jsonb_statements_of_ordered (s ∷ ss) h =
    rw (jsonb_statement_of_ordered s h.0, jsonb_statements_of_ordered ss h.1)

pub jsonb_document_of_ordered :
    (d : BucketPolicyDocument) → IsDocumentOrdered d → jsonb_document d ≡ d
unfolding jsonb_document
jsonb_document_of_ordered d h =
    ap (λ ss. record d { statement = ss }) (jsonb_statements_of_ordered d.statement h)
