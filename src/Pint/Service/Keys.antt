-- ===== src/Pint/Service/Keys.antt =====
-- The keys of apps/api/internal/pint/handler.go under which the objects of an invoice are stored.
use prompt_pack.Base.{◌+◌, String, ◌&◌, ◌≡◌, refl, ap, ◌≢◌, arith, eq_iff}
use text.Mathlib.TextLemmas.{append_cancel_left, append_inj, length-append}
use Prim.Native.String.{count}
use prompt_pack.Pint.Service.{object_key}

-- How long what follows the tenant is.
count-rest :
    (id file : String)
    → count ("/invoices/" & (id & ("/" & file))) ≡ 10 + (count id + (1 + count file))
count-rest id file = omega (
  arith,
  length-append "/invoices/" (id & ("/" & file)),
  length-append id ("/" & file),
  length-append "/" file,
)

-- At one id, a key names one tenant and one file, among files with names of one length.
pub object_key_inj :
    (t t' id file file' : String)
    → count file ≡ count file'
    → object_key t id file ≡ object_key t' id file'
    → (t ≡ t') × (file ≡ file')
unfolding object_key
object_key_inj t t' id file file' same e =
    let (heads, tails) = append_inj e (
      omega (
        arith,
        same,
        ap count e,
        length-append t ("/invoices/" & (id & ("/" & file))),
        length-append t' ("/invoices/" & (id & ("/" & file'))),
        count-rest id file,
        count-rest id file',
      )) in
    (
      heads,
      append_cancel_left "/" file file' (
          append_cancel_left id ("/" & file) ("/" & file')
            (append_cancel_left "/invoices/" (id & ("/" & file)) (id & ("/" & file')) tails)),
    )

-- The XML and the PDF of an invoice are two objects.
pub pdf-ne-xml : (t id : String) → object_key t id "invoice.pdf" ≢ object_key t id "invoice.xml"
pdf-ne-xml t id e =
    let h = (object_key_inj t t id "invoice.pdf" "invoice.xml" refl e).1 in
    absurd (ground (arith, eq_iff "invoice.pdf" "invoice.xml", h))

-- The objects of two tenants are apart, at one id.
pub foreign_ne :
    (t t' id file file' : String)
    → count file ≡ count file'
    → t ≢ t'
    → object_key t id file ≢ object_key t' id file'
foreign_ne t t' id file file' same ne e = absurd (ne (object_key_inj t t' id file file' same e).0)
