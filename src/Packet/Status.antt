-- ===== src/Packet/Status.antt =====
-- The NTSTATUS codes of internal/smb/packet.go that the handlers answer with.
use portable_smb_server.Base.{ℕ}

abbrev pub success : ℕ
success = 0x00000000

abbrev pub buffer_overflow : ℕ
buffer_overflow = 0x80000005

abbrev pub no_more_files : ℕ
no_more_files = 0x80000006

abbrev pub more_processing_required : ℕ
more_processing_required = 0xC0000016

abbrev pub object_name_not_found : ℕ
object_name_not_found = 0xC0000034

abbrev pub object_name_collision : ℕ
object_name_collision = 0xC0000035

abbrev pub access_denied : ℕ
access_denied = 0xC0000022

abbrev pub bad_network_name : ℕ
bad_network_name = 0xC00000CC

abbrev pub logon_failure : ℕ
logon_failure = 0xC000006D

abbrev pub user_session_deleted : ℕ
user_session_deleted = 0xC0000203

abbrev pub insufficient_resources : ℕ
insufficient_resources = 0xC000009A

abbrev pub not_supported : ℕ
not_supported = 0xC00000BB

abbrev pub not_found : ℕ
not_found = 0xC0000225

abbrev pub invalid_parameter : ℕ
invalid_parameter = 0xC000000D

abbrev pub end_of_file : ℕ
end_of_file = 0xC0000011

abbrev pub file_is_a_directory : ℕ
file_is_a_directory = 0xC00000BA

abbrev pub not_a_directory : ℕ
not_a_directory = 0xC0000103

abbrev pub invalid_info_class : ℕ
invalid_info_class = 0xC0000003

abbrev pub sharing_violation : ℕ
sharing_violation = 0xC0000043

abbrev pub directory_not_empty : ℕ
directory_not_empty = 0xC0000101

abbrev pub media_write_protected : ℕ
media_write_protected = 0xC00000A2

abbrev pub unsuccessful : ℕ
unsuccessful = 0xC0000001

abbrev pub network_name_deleted : ℕ
network_name_deleted = 0xC00000C9
