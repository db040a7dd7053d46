-- ===== src/Http.antt =====
-- What internal/httpvfs/httpvfs.go and internal/vfsprovider/vfsprovider.go send each other: requests,
-- responses, and the JSON objects of the contract in internal/openapi/openapi.json. The escaping of
-- net/url and the transport of net/http carry a request as it is.
use portable_smb_server.Base.{ℕ, Bool, false, Option, none, List, [], ◌∷◌, if◌then◌else◌}
use portable_smb_server.Base.Int.{ℤ}
use portable_smb_server.Wire.{Bytes}
use portable_smb_server.Packet.Utf16.{Str}
use portable_smb_server.Packet.Filetime.{Time}
use portable_smb_server.Fsx.{Error}

pub data Method : Type 0 where
  get head post put delete other_method : Method

-- the paths that the provider's mux knows, and any other
pub data Endpoint : Type 0 where
  capabilities stat list read statfs create write mkdir rename remove truncate chtimes : Endpoint
  unknown_endpoint : Endpoint

-- the names of query parameters
pub data Param : Type 0 where
  path offset length size mod_time exclusive : Param

abbrev pub same_param : Param → Param → Bool
same_param path path = Bool.true
same_param offset offset = Bool.true
same_param length length = Bool.true
same_param size size = Bool.true
same_param mod_time mod_time = Bool.true
same_param exclusive exclusive = Bool.true
same_param _ _ = false

abbrev pub Query : Type 0
Query = List (Param × Str)

-- url.Values.Get: the first value, "" if there is none
abbrev pub query_get : Param → Query → Str
query_get k [] = []
query_get k ((j, v) ∷ q) = if same_param j k then v else query_get k q

-- `fileInfoJSON` of both packages. A size is a count here.
pub record FileInfoJson : Type 0 where
  pub name : Str
  pub size : ℕ
  pub mod_time : Time
  pub is_dir : Bool
  pub read_only : Bool

-- A JSON object with the fields of the contract that it has. A field that is missing is decoded to
-- its zero value, and one that is not asked for is passed over.
pub record Json : Type 0 where
  pub info : Option FileInfoJson
  pub entries : Option (List FileInfoJson)
  pub share_name : Option Str
  pub provider_read_only : Option Bool
  pub case_insensitive : Option Bool
  pub total_bytes : Option ℤ
  pub free_bytes : Option ℤ
  pub written : Option ℕ
  pub from : Option Str
  pub to : Option Str
  pub replace : Option Bool

abbrev pub no_fields : Json
no_fields = record {
  info = none;
  entries = none;
  share_name = none;
  provider_read_only = none;
  case_insensitive = none;
  total_bytes = none;
  free_bytes = none;
  written = none;
  from = none;
  to = none;
  replace = none;
}

-- The body of a request or a response: its bytes, and the object that encoding/json reads in them.
pub record Body : Type 0 where
  pub bytes : Bytes
  pub json : Option Json

pub record Request : Type 0 where
  pub method : Method
  pub endpoint : Endpoint
  pub query : Query
  pub token : Str
  pub body : Body

pub record Response : Type 0 where
  pub status : ℕ
  pub body : Body

-- What a request brings: a failure of the connection, or a response, as the client reads it.
pub data Answer (A : Type 0) : Type 0 where
  no_answer : Error → Answer A
  answer : ℕ → A → Answer A
