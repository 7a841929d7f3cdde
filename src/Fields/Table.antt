-- ===== src/Fields/Table.antt =====
-- The table `ValidFields` of common/fields/fields.go.
use telhawk_stack.Prelude.{String, Bool, true, false, List, [], ◌∷◌, ◌++◌}

pub record FieldInfo : Type 0 where
  pub kind : String  -- `Type`
  pub description : String
  pub allow_nested : Bool

abbrev plain : String → String → String → String × FieldInfo
plain path kind description =
    (path, record { kind = kind; description = description; allow_nested = false })

abbrev nested : String → String → String → String × FieldInfo
nested path kind description =
    (path, record { kind = kind; description = description; allow_nested = true })

core_fields : List (String × FieldInfo)
core_fields =
    plain ".time" "date" "Event timestamp"
    ∷ plain ".@timestamp" "date" "Event timestamp (alternative)"
    ∷ plain ".class_uid" "integer" "OCSF event class identifier"
    ∷ plain ".class" "keyword" "OCSF event class name"
    ∷ plain ".class_name" "keyword" "OCSF event class name (alias)"
    ∷ plain ".category_uid" "integer" "OCSF category identifier"
    ∷ plain ".category" "keyword" "OCSF category name"
    ∷ plain ".category_name" "keyword" "OCSF category name (alias)"
    ∷ plain ".activity_id" "integer" "Activity identifier"
    ∷ plain ".activity" "keyword" "Activity name"
    ∷ plain ".activity_name" "keyword" "Activity name (alias)"
    ∷ plain ".type_uid" "long" "Full type identifier (class_uid * 100 + activity_id)"
    ∷ plain ".severity" "keyword" "Severity level name"
    ∷ plain ".severity_id" "integer" "Severity level identifier"
    ∷ plain ".status" "keyword" "Status name"
    ∷ plain ".status_id" "integer" "Status identifier (1=Success, 2=Failure)"
    ∷ plain ".status_detail" "text" "Detailed status message"
    ∷ plain ".message" "text" "Event message"
    ∷ plain ".metadata.version" "keyword" "OCSF schema version"
    ∷ plain ".metadata.product.name" "keyword" "Product name"
    ∷ plain ".metadata.product.vendor_name" "keyword" "Vendor name"
    ∷ plain ".metadata.product.version" "keyword" "Product version"
    ∷ plain ".metadata.log_name" "keyword" "Log source name"
    ∷ plain ".metadata.log_provider" "keyword" "Log provider"
    ∷ plain ".user.name" "keyword" "Target user name"
    ∷ plain ".user.uid" "keyword" "Target user identifier"
    ∷ plain ".user.email" "keyword" "Target user email"
    ∷ plain ".user.domain" "keyword" "Target user domain"
    ∷ nested ".actor.user" "object" "Actor user object"
    ∷ nested ".actor.process" "object" "Actor process object"
    ∷ plain ".process.pid" "integer" "Process ID"
    ∷ plain ".process.name" "keyword" "Process name"
    ∷ plain ".process.cmd_line" "text" "Command line"
    ∷ plain ".process.uid" "keyword" "Process unique identifier"
    ∷ nested ".process.parent_process" "object" "Parent process object"
    ∷ nested ".process.file" "object" "Process executable file object"
    ∷ plain ".process.file.path" "keyword" "Path to process executable"
    ∷ []

object_fields : List (String × FieldInfo)
object_fields =
    plain ".process.file.name" "keyword" "Process executable filename"
    ∷ plain ".file.path" "keyword" "File path"
    ∷ plain ".file.name" "keyword" "File name"
    ∷ plain ".file.type" "keyword" "File type"
    ∷ plain ".file.size" "long" "File size in bytes"
    ∷ plain ".file.modified_time" "date" "Last modified time"
    ∷ plain ".src_endpoint.ip" "ip" "Source IP address"
    ∷ plain ".src_endpoint.port" "integer" "Source port"
    ∷ plain ".src_endpoint.hostname" "keyword" "Source hostname"
    ∷ plain ".dst_endpoint.ip" "ip" "Destination IP address"
    ∷ plain ".dst_endpoint.port" "integer" "Destination port"
    ∷ plain ".dst_endpoint.hostname" "keyword" "Destination hostname"
    ∷ plain ".connection_info.protocol_name" "keyword" "Protocol name (TCP, UDP, etc)"
    ∷ plain ".connection_info.direction" "keyword" "Connection direction"
    ∷ plain ".connection_info.boundary" "keyword" "Network boundary"
    ∷ plain ".traffic.bytes" "long" "Bytes transferred"
    ∷ plain ".traffic.packets" "long" "Packets transferred"
    ∷ plain ".query.hostname" "keyword" "DNS query hostname"
    ∷ plain ".query.type" "keyword" "DNS query type"
    ∷ plain ".query.class" "keyword" "DNS query class"
    ∷ plain ".answers" "nested" "DNS answers array"
    ∷ plain ".response_code" "keyword" "DNS response code"
    ∷ nested ".http_request" "object" "HTTP request object"
    ∷ nested ".http_response" "object" "HTTP response object"
    ∷ nested ".finding" "object" "Finding/detection object"
    ∷ nested ".attacks" "nested" "MITRE ATT&CK mappings"
    ∷ nested ".resources" "nested" "Affected resources"
    ∷ plain ".risk_score" "integer" "Risk score (0-100)"
    ∷ plain ".attack_tactic" "keyword" "MITRE ATT&CK tactic name (hoisted from attacks[0])"
    ∷ plain ".attack_tactic_uid" "keyword"
        "MITRE ATT&CK tactic UID, e.g. TA0003 (hoisted from attacks[0])"
    ∷ plain ".attack_technique" "keyword" "MITRE ATT&CK technique name (hoisted from attacks[0])"
    ∷ plain ".attack_technique_uid" "keyword"
        "MITRE ATT&CK technique UID, e.g. T1547 (hoisted from attacks[0])"
    ∷ plain ".auth_protocol" "keyword" "Authentication protocol"
    ∷ nested ".properties" "object" "Custom properties object"
    ∷ plain ".device.hostname" "keyword" "Device hostname"
    ∷ plain ".device.ip" "ip" "Device IP address"
    ∷ plain ".device.type" "keyword" "Device type"
    ∷ plain ".device.type_id" "integer" "Device type ID"
    ∷ plain ".device.os.name" "keyword" "Operating system name"
    ∷ plain ".device.os.type" "keyword" "Operating system type"
    ∷ []

unfoldable pub valid_fields : List (String × FieldInfo)
unfolding core_fields object_fields
valid_fields = core_fields ++ object_fields
