-- ===== src/Tests/Surface.antt =====
-- Registries of crates/argus-domain/src/registry.rs, with and without a sandbox.
use argus_ai.Prelude.{refl, true, List, [], ◌∷◌, String, string_eq, nat_eq}
use argus_ai.Domain.Registry
use argus_ai.Domain.Registry.{
  CapabilityDescriptor, CapabilityRegistry, reversible, landlock, is_satisfied_by, missing_from,
  includes, contains, ungranted, register, unregister_server, with_prefix, remove_each,
  with_sandbox, server_prefix,
}
use argus_ai.Domain.Surface.{
  Honoured, Change, registers, unregisters, change, change_all, registered-Honoured,
}
use argus_ai.Prelude.Assoc
use argus_ai.Tests.Host.{Value, descriptor}

-- Capabilities of two servers, and a sandbox.
abbrev tool_of : String → CapabilityDescriptor Value
tool_of c = record (descriptor c) { privileged = true; privileges = landlock ∷ [] }

abbrev changes : List (Change Value)
changes =
    registers (tool_of "mcp.files.read")
    ∷ registers (tool_of "mcp.web.get")
    ∷ unregisters "files"
    ∷ []

registered-Honoured_example : Honoured (landlock ∷ []) "mcp.web.get" (tool_of "mcp.web.get")
unfolding change_all change register unregister_server contains ungranted with_prefix remove_each
    with_sandbox missing_from includes Registry.get Assoc.get Assoc.insert Assoc.remove
registered-Honoured_example =
    registered-Honoured (landlock ∷ []) changes "mcp.web.get" (tool_of "mcp.web.get") refl
