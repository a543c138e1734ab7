-- ===== src/Conversion/Same/Images/RoundTrip.antt =====
-- The messages about images come back from a conversion there and back.
use criproxy.Prelude.{◌≡◌, refl}
use criproxy.Conversion.Paths.{map-map, list_map-map}
use criproxy.Proxy.World.{Version}
use criproxy.Conversion.Same.Values.{convert_int64_value, convert_image_spec}
use criproxy.Conversion.Same.Images.{
  ImageOf, convert_image, ImageFilterOf, convert_image_filter, ImageStatusRequestOf,
  convert_image_status_request, ImageStatusResponseOf, convert_image_status_response,
  ListImagesRequestOf, convert_list_images_request, ListImagesResponseOf,
  convert_list_images_response, PullImageResponseOf, convert_pull_image_response,
  RemoveImageRequestOf, convert_remove_image_request, RemoveImageResponseOf,
  convert_remove_image_response, ImageFsInfoRequestOf, convert_image_fs_info_request,
}
use criproxy.Conversion.Same.Values.RoundTrip.{
  convert_int64_value-convert, convert_image_spec-convert,
}

pub convert_image-convert :
    {u : Version} (v : Version) (m : ImageOf u) → convert_image u (convert_image v m) ≡ m
unfolding convert_image
convert_image-convert {u} v m = λ i. record m {
  uid =
      map-map (convert_int64_value v) (convert_int64_value u) m.uid (convert_int64_value-convert v)
        i;
}

pub convert_image_filter-convert :
    {u : Version} (v : Version) (m : ImageFilterOf u)
    → convert_image_filter u (convert_image_filter v m) ≡ m
unfolding convert_image_filter
convert_image_filter-convert {u} v m = λ i. record m {
  image =
      map-map (convert_image_spec v) (convert_image_spec u) m.image (convert_image_spec-convert v)
        i;
}

pub convert_image_status_request-convert :
    {u : Version} (v : Version) (m : ImageStatusRequestOf u)
    → convert_image_status_request u (convert_image_status_request v m) ≡ m
unfolding convert_image_status_request
convert_image_status_request-convert {u} v m = λ i. record m {
  image =
      map-map (convert_image_spec v) (convert_image_spec u) m.image (convert_image_spec-convert v)
        i;
}

pub convert_image_status_response-convert :
    {u : Version} (v : Version) (m : ImageStatusResponseOf u)
    → convert_image_status_response u (convert_image_status_response v m) ≡ m
unfolding convert_image_status_response
convert_image_status_response-convert {u} v m = λ i. record m {
  image = map-map (convert_image v) (convert_image u) m.image (convert_image-convert v) i;
}

pub convert_list_images_request-convert :
    {u : Version} (v : Version) (m : ListImagesRequestOf u)
    → convert_list_images_request u (convert_list_images_request v m) ≡ m
unfolding convert_list_images_request
convert_list_images_request-convert {u} v m = λ i. record m {
  filter =
      map-map (convert_image_filter v) (convert_image_filter u) m.filter
        (convert_image_filter-convert v) i;
}

pub convert_list_images_response-convert :
    {u : Version} (v : Version) (m : ListImagesResponseOf u)
    → convert_list_images_response u (convert_list_images_response v m) ≡ m
unfolding convert_list_images_response
convert_list_images_response-convert {u} v m = λ i. record m {
  images = list_map-map (convert_image v) (convert_image u) m.images (convert_image-convert v) i;
}

pub convert_pull_image_response-convert :
    {u : Version} (v : Version) (m : PullImageResponseOf u)
    → convert_pull_image_response u (convert_pull_image_response v m) ≡ m
unfolding convert_pull_image_response
convert_pull_image_response-convert v m = refl

pub convert_remove_image_request-convert :
    {u : Version} (v : Version) (m : RemoveImageRequestOf u)
    → convert_remove_image_request u (convert_remove_image_request v m) ≡ m
unfolding convert_remove_image_request
convert_remove_image_request-convert {u} v m = λ i. record m {
  image =
      map-map (convert_image_spec v) (convert_image_spec u) m.image (convert_image_spec-convert v)
        i;
}

pub convert_remove_image_response-convert :
    {u : Version} (v : Version) (m : RemoveImageResponseOf u)
    → convert_remove_image_response u (convert_remove_image_response v m) ≡ m
unfolding convert_remove_image_response
convert_remove_image_response-convert v RemoveImageResponseOf.empty = refl

pub convert_image_fs_info_request-convert :
    {u : Version} (v : Version) (m : ImageFsInfoRequestOf u)
    → convert_image_fs_info_request u (convert_image_fs_info_request v m) ≡ m
unfolding convert_image_fs_info_request
convert_image_fs_info_request-convert v ImageFsInfoRequestOf.empty = refl
