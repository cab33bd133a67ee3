-- ===== src/ImageScan/Http.antt =====
-- imagescan/http_handler.go: the metadata of scanned images on their way to the server, and the models
-- of the two debug pages. Reading, JSON, the client and html/template are outside: their answers are
-- arguments.
pub mod Pages
use kvisor.Base.{
  ℕ, ◌+◌, String, GoMap, GoSet, lookup, keys, length, take, List, [], ◌∷◌, ◌++◌, map, Option, none,
  some, Bool, true, false, ltb, if◌then◌else◌, ◌⊎◌, inl, inr,
}
use kvisor.ImageScan.State.{ScanError, Image, DeltaState, get_images, node_count}

pub data Status : Type 0 where
  status_ok internal_server_error not_found : Status

-- `HandleImageMetadata`: the status, and the metadata that the client was asked to send.
unfoldable pub handle_image_metadata {ℓ} :
    {Raw Metadata : Type ℓ}
    → String ⊎ Raw
    → (Raw → String ⊎ Metadata)
    → (Metadata → Option String)
    → Status × Option Metadata
handle_image_metadata body unmarshal send = elim body [
  | inl err ↦ (internal_server_error, none)
  | inr raw ↦ elim (unmarshal raw) [
    | inl err ↦ (internal_server_error, none)
    | inr md ↦ elim (send md) [
      | none ↦ (status_ok, some md)
      | some err ↦ (internal_server_error, some md)
    ]
  ]
]

-- A row of the page of images; a text of an error is the list of its bytes.
pub record ImageRow : Type 0 where
  pub key : String
  pub name : String
  pub arch : String
  pub owners : ℕ
  pub pods : ℕ
  pub nodes : ℕ
  pub scanned : Bool
  pub scan_err : List ℕ

pub record ImagesPage : Type 0 where
  pub nodes_count : ℕ
  pub images_count : ℕ
  pub images : List ImageRow

-- The loop over the owners.
unfoldable pub count_pods : GoMap GoSet → ℕ
count_pods [] = 0
count_pods ((owner, pod_ids) ∷ owners) = length pod_ids + count_pods owners

abbrev pub max_err_str : ℕ
max_err_str = 200

unfoldable pub shorten : List ℕ → List ℕ
shorten text =
    if ltb max_err_str (length text) then take max_err_str text ++ (46 ∷ 46 ∷ 46 ∷ []) else text

-- `error_text` is `Error` on the last error.
module _ (error_text : ScanError → List ℕ) where
  unfoldable pub image_row : Image → ImageRow
  unfolding count_pods shorten
  image_row img = record {
    key = img.key;
    name = img.name;
    arch = img.architecture;
    owners = length img.owners;
    pods = count_pods img.owners;
    nodes = length img.nodes;
    scanned = img.scanned;
    scan_err = shorten (elim img.last_scan_err [ none ↦ [] | some err ↦ error_text err ]);
  }

  -- The model of `HandleDebugGetImages`; `sort_by_name` is `sort.Slice` by the names.
  unfoldable pub images_page : (List ImageRow → List ImageRow) → DeltaState → ImagesPage
  unfolding image_row get_images node_count
  images_page sort_by_name d = record {
    nodes_count = node_count d;
    images_count = length d.images;
    images = sort_by_name (map image_row (get_images d));
  }

-- The model of `HandleDebugGetImage`: the owners with their pods, and the nodes.
pub record ImagePage : Type 0 where
  pub key : String
  pub owners : List (String × List String)
  pub nodes : List String

unfoldable pub owner_rows : GoMap GoSet → List (String × List String)
owner_rows [] = []
owner_rows ((owner, pod_ids) ∷ owners) = (owner, keys pod_ids) ∷ owner_rows owners

unfoldable pub image_page : DeltaState → String → Status × Option ImagePage
unfolding owner_rows
image_page d key = elim (lookup key d.images) [
  | none ↦ (not_found, none)
  | some img ↦ (
    status_ok,
    some (record { key = key; owners = owner_rows img.owners; nodes = keys img.nodes }),
  )
]
