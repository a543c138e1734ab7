-- ===== src/Object/Images.antt =====
-- pkg/proxy/cri19.go and pkg/proxy/cri110.go: the messages about images.
-- A record stands for the raw message in a wrapper of either version; a pointer is an Option.
use criproxy.Prelude.{Bool, Option, List}
use criproxy.Text.{Text}
use criproxy.Object.Items.{Rest, ImageSpec, Image, FilesystemUsage}

pub record ImageFilter : Type 0 where
  pub image : Option ImageSpec

pub record ListImagesRequest : Type 0 where
  pub filter : Option ImageFilter

pub record ListImagesResponse : Type 0 where
  pub images : List Image

pub record ImageStatusRequest : Type 0 where
  pub image : Option ImageSpec
  pub verbose : Bool

pub record ImageStatusResponse : Type 0 where
  pub image : Option Image
  pub rest : Rest

pub record PullImageRequest : Type 0 where
  pub image : Option ImageSpec
  pub rest : Rest

pub record PullImageResponse : Type 0 where
  pub image_ref : Text

pub record RemoveImageRequest : Type 0 where
  pub image : Option ImageSpec

pub record RemoveImageResponse : Type 0 where

pub record ImageFsInfoRequest : Type 0 where

pub record ImageFsInfoResponse : Type 0 where
  pub image_filesystems : List FilesystemUsage
