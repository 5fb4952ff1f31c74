-- ===== src/Audit.antt =====
-- src/audit/audit.service.ts: the log of who did what.
use lotus_build_server.Base.{ℕ, String, List}
use lotus_build_server.World.Calls.{Call, PrismaCall, AuditEntry, AuditLog}
use lotus_build_server.World.Exec.{World, Exec, act, perform}

-- `AuditService.record`
abbrev pub record_entry : World → AuditEntry → Exec (Unit {0})
record_entry w entry = act w (Call.prisma (PrismaCall.audit_create entry))

-- `AuditService.listForOrganization`
abbrev pub list_for_organization : World → String → ℕ → Exec (List AuditLog)
list_for_organization w organization_id limit =
    perform w (Call.prisma (PrismaCall.audit_find_many organization_id limit))
