-- ===== src/Conversion/Same/Images.antt =====
-- The messages about images, the same in both versions, and their conversions in both
-- directions (pkg/runtimeapis/v1_9/conversion_generated.go).
pub mod RoundTrip
use mathlib.Core.Option
use criproxy.Prelude.{ℕ, Bool, Option, List, map}
use criproxy.Text.{Text}
use criproxy.Naming.{Annotations}
use criproxy.Proxy.World.{Version}
use criproxy.Conversion.Same.Values.{
  Int64ValueOf, convert_int64_value, ImageSpecOf, convert_image_spec,
}

pub record ImageOf (v : Version) : Type 0 where
  pub id : Text
  pub repo_tags : List Text
  pub repo_digests : List Text
  pub size : ℕ
  pub uid : Option (Int64ValueOf v)
  pub username : Text

unfoldable pub convert_image : {u : Version} (v : Version) → ImageOf u → ImageOf v
convert_image v m = record {
  id = m.id;
  repo_tags = m.repo_tags;
  repo_digests = m.repo_digests;
  size = m.size;
  uid = Option.map (convert_int64_value v) m.uid;
  username = m.username;
}

pub record ImageFilterOf (v : Version) : Type 0 where
  pub image : Option (ImageSpecOf v)

unfoldable pub convert_image_filter :
    {u : Version} (v : Version) → ImageFilterOf u → ImageFilterOf v
convert_image_filter v m = record { image = Option.map (convert_image_spec v) m.image }

pub record ImageStatusRequestOf (v : Version) : Type 0 where
  pub image : Option (ImageSpecOf v)
  pub verbose : Bool

unfoldable pub convert_image_status_request :
    {u : Version} (v : Version) → ImageStatusRequestOf u → ImageStatusRequestOf v
convert_image_status_request v m = record {
  image = Option.map (convert_image_spec v) m.image;
  verbose = m.verbose;
}

pub record ImageStatusResponseOf (v : Version) : Type 0 where
  pub image : Option (ImageOf v)
  pub info : Annotations

unfoldable pub convert_image_status_response :
    {u : Version} (v : Version) → ImageStatusResponseOf u → ImageStatusResponseOf v
convert_image_status_response v m = record {
  image = Option.map (convert_image v) m.image;
  info = m.info;
}

pub record ListImagesRequestOf (v : Version) : Type 0 where
  pub filter : Option (ImageFilterOf v)

unfoldable pub convert_list_images_request :
    {u : Version} (v : Version) → ListImagesRequestOf u → ListImagesRequestOf v
convert_list_images_request v m = record { filter = Option.map (convert_image_filter v) m.filter }

pub record ListImagesResponseOf (v : Version) : Type 0 where
  pub images : List (ImageOf v)

unfoldable pub convert_list_images_response :
    {u : Version} (v : Version) → ListImagesResponseOf u → ListImagesResponseOf v
convert_list_images_response v m = record { images = map (convert_image v) m.images }

pub record PullImageResponseOf (v : Version) : Type 0 where
  pub image_ref : Text

unfoldable pub convert_pull_image_response :
    {u : Version} (v : Version) → PullImageResponseOf u → PullImageResponseOf v
convert_pull_image_response v m = record { image_ref = m.image_ref }

pub record RemoveImageRequestOf (v : Version) : Type 0 where
  pub image : Option (ImageSpecOf v)

unfoldable pub convert_remove_image_request :
    {u : Version} (v : Version) → RemoveImageRequestOf u → RemoveImageRequestOf v
convert_remove_image_request v m = record { image = Option.map (convert_image_spec v) m.image }

pub data RemoveImageResponseOf (v : Version) : Type 0 where
  empty : RemoveImageResponseOf v

unfoldable pub convert_remove_image_response :
    {u : Version} (v : Version) → RemoveImageResponseOf u → RemoveImageResponseOf v
convert_remove_image_response v RemoveImageResponseOf.empty = RemoveImageResponseOf.empty

pub data ImageFsInfoRequestOf (v : Version) : Type 0 where
  empty : ImageFsInfoRequestOf v

unfoldable pub convert_image_fs_info_request :
    {u : Version} (v : Version) → ImageFsInfoRequestOf u → ImageFsInfoRequestOf v
convert_image_fs_info_request v ImageFsInfoRequestOf.empty = ImageFsInfoRequestOf.empty
