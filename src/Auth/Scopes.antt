-- ===== src/Auth/Scopes.antt =====
-- apps/api/internal/auth/domain.go: the scopes that an API key may have.
use prompt_pack.Base.{String, List, [], ◌∷◌}

abbrev pub audit_read : String
audit_read = "audit:read"

abbrev pub audit_write : String
audit_write = "audit:write"

abbrev pub invoice_read : String
invoice_read = "invoice:read"

abbrev pub invoice_write : String
invoice_write = "invoice:write"

abbrev pub admin_read : String
admin_read = "admin:read"

abbrev pub admin_write : String
admin_write = "admin:write"

unfoldable pub all_scopes : List String
all_scopes = audit_read ∷ audit_write ∷ invoice_read ∷ invoice_write ∷ admin_read ∷ admin_write ∷ []
